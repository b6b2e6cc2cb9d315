-- ===== src/Worker/Turns/Halves.antt =====
-- What a call has still to send, and what its two halves do to it.
use mathlib.Core.Path.{subst}
use mathlib.Core.List.{Perm, append_assoc, append-nil, perm_append_comm}
use mathlib.Core.List.Perm
use core_status.Base.{
  String, ◌≡◌, refl, ap, inl, inr, Option, List, [], ◌∷◌, ◌++◌, map, if◌then◌else◌, arith,
}
use core_status.Data.Errors.{Error, Result, ok, err, Result-cases}
use core_status.Data.Json.{Json, truthy}
use core_status.Data.Messages.{Effect, StatusUpdateDto, send_pre}
use core_status.Effects.{World, Env}
use core_status.Cache.{get, read_value, built_re_encryption_per_grant_key}
use core_status.Worker.{text_of, members_of, pre_update}
use core_status.Worker.Fanout.{Answers, message_for, messages}
use core_status.Worker.Turns.{Keyed, read_key, send_for, Call, started, keyed, finished}

module _ (env : Env) (update : StatusUpdateDto) where
  -- what a call has still to send
  abbrev pub due : (String → Option String) → Call → List Effect
  due strings (started grant) = message_for env update strings (members_of grant)
  due strings (keyed (members, key)) =
      if truthy key
      then send_pre (text_of env members.0) (pre_update env update members.0 members.1 key) ∷ []
      else []
  due strings finished = []

  abbrev pub all_due : (String → Option String) → List Call → List Effect
  all_due strings [] = []
  all_due strings (c ∷ cs) = due strings c ++ all_due strings cs

  pub all_due-start :
      (strings : String → Option String) (grants : List Json)
      → all_due strings (map (λ g. started g) grants) ≡ messages env update strings grants
  all_due-start strings [] = refl
  all_due-start strings (g ∷ gs) =
      ap (λ es. message_for env update strings (members_of g) ++ es) (all_due-start strings gs)

  swap_front : (xs ys zs : List Effect) → Perm (xs ++ (ys ++ zs)) (ys ++ (xs ++ zs))
  swap_front xs ys zs =
      subst (λ l. Perm l (ys ++ (xs ++ zs))) (append_assoc xs ys zs)
        (subst (λ l. Perm ((xs ++ ys) ++ zs) l) (append_assoc ys xs zs)
          (Perm.append_right zs (perm_append_comm xs ys)))

  -- What one call has to send may be taken to the front.
  pub all_due-perm :
      (strings : String → Option String) (before : List Call) (c : Call) (after : List Call)
      → Perm
          (all_due strings (before ++ c ∷ after))
          (due strings c ++ all_due strings (before ++ after))
  all_due-perm strings [] c after = Perm.refl _
  all_due-perm strings (b ∷ before) c after =
      Perm.trans (Perm.append_left (due strings b) (all_due-perm strings before c after))
        (swap_front (due strings b) (due strings c) (all_due strings (before ++ after)))

  abbrev pub key_for : World → Option Json × Option Json → Json
  key_for w members =
      read_value env (w.strings (built_re_encryption_per_grant_key (text_of env members.0)))

  pub read_key-ok :
      (w v : World) (grant : Json) (members : Option Json × Option Json)
      → Answers env update w
      → v.strings ≡ w.strings
      → members_of grant ≡ ok members
      → read_key env grant v ≡ (ok (members, key_for w members), v)
  unfolding read_key get
  read_key-ok w v grant members answers same of =
      ground (arith, answers.0 (built_re_encryption_per_grant_key (text_of env members.0)))

  pub read_key-err :
      (v : World) (grant : Json) (e : Error)
      → members_of grant ≡ err e
      → read_key env grant v ≡ (err e, v)
  unfolding read_key
  read_key-err v grant e of = ground arith

  -- What a call has still to send does not change as it reads its key.
  pub read_key_inv :
      (w v v' : World) (grant : Json) (r : Keyed)
      → Answers env update w
      → v.strings ≡ w.strings
      → read_key env grant v ≡ (ok r, v')
      → (v' ≡ v) × (due w.strings (started grant) ≡ due w.strings (keyed r))
  read_key_inv w v v' grant r answers same h = elim (Result-cases (members_of grant)) [
    | inl (members, of) ↦
        (let read = read_key-ok w v grant members answers same of in
          let is_r : (members, key_for w members) ≡ r = ground arith in
          (ground arith, rw of (ap (λ x. due w.strings (keyed x)) is_r)))
    | inr (e, of) ↦ absurd (ground (arith, read_key-err v grant e of))
  ]

  pub read_key_fails :
      (w v v' : World) (grant : Json) (e : Error)
      → Answers env update w
      → v.strings ≡ w.strings
      → read_key env grant v ≡ (err e, v')
      → (v' ≡ v) × (due w.strings (started grant) ≡ [])
  read_key_fails w v v' grant e answers same h = elim (Result-cases (members_of grant)) [
    | inl (members, of) ↦ absurd (ground (arith, read_key-ok w v grant members answers same of))
    | inr (x, of) ↦ (let read = read_key-err v grant x of in (ground arith, rw of refl))
  ]

  pub send_for-sends :
      (w v v' : World) (r : Keyed) (result : Result (Unit {0}))
      → Answers env update w
      → send_for env update r v ≡ (result, v')
      → v' ≡ record v { history = v.history ++ due w.strings (keyed r) }
  unfolding send_for
  send_for-sends w v v' (members, key) result answers h = ground (
    arith,
    append-nil v.history,
    answers.1 (send_pre (text_of env members.0) (pre_update env update members.0 members.1 key))
        v.history,
  )
