-- ===== src/Worker/Turns/AnyOrder.antt =====
-- What the calls send, whichever turns they take.
use mathlib.Core.Path.{subst}
use mathlib.Core.List.{Perm, append_assoc, append-nil}
use mathlib.Core.List.Perm
use core_status.Base.{
  ℕ, zero, suc, ◌≡◌, refl, sym, ap, ◌∙◌, ◌≤◌, ◌*◌, ◌⊎◌, inl, inr, List, [], ◌∷◌, ◌++◌, length,
  arith, All,
}
use core_status.Data.Errors.{Result-cases}
use core_status.Data.Json.{Json}
use core_status.Data.Messages.{Effect, StatusUpdateDto}
use core_status.Effects.{World, Env}
use core_status.Worker.{members_of}
use core_status.Worker.Fanout.{Answers, messages}
use core_status.Worker.Turns.{
  Call, started, keyed, finished, Calls, Turn, reads, fails, sends, Turns, here, later, at_start,
}
use core_status.Worker.Turns.Bounded.{Turns-bounded}
use core_status.Worker.Turns.Halves.{
  due, all_due, all_due-start, all_due-perm, read_key-ok, read_key-err, read_key_inv,
  read_key_fails, send_for-sends,
}

module _ (env : Env) (update : StatusUpdateDto) (w : World) (answers : Answers env update w)
    (grants : List Json) where
  -- `sent` and what is still due are the messages for the grants, in some order.
  record Inv (s : Calls) : Type 0 where
    sent : List Effect
    world : s.world ≡ record w { history = w.history ++ sent }
    whole :
        Perm (sent ++ all_due env update w.strings s.calls) (messages env update w.strings grants)

  start-Inv : Inv (at_start grants w)
  start-Inv = record {
    sent = [];
    world = ground (arith, append-nil w.history);
    whole =
        rw (all_due-start env update w.strings grants)
          (Perm.refl (messages env update w.strings grants));
  }

  abbrev left : List Call → List Effect
  left = all_due env update w.strings

  -- A call that is replaced by one that has the same to send leaves the whole as it is.
  same_due :
      (sent : List Effect) (before after : List Call) (c d : Call)
      → due env update w.strings c ≡ due env update w.strings d
      → Perm (sent ++ left (before ++ d ∷ after)) (sent ++ left (before ++ c ∷ after))
  same_due sent before after c d e = Perm.append_left sent (
      Perm.trans (all_due-perm env update w.strings before d after)
        (Perm.symm (rw e at (all_due-perm env update w.strings before c after))))

  -- What a call sends is no longer due.
  sent_due :
      (sent : List Effect) (before after : List Call) (c : Call)
      → Perm
          ((sent ++ due env update w.strings c) ++ left (before ++ finished ∷ after))
          (sent ++ left (before ++ c ∷ after))
  sent_due sent before after c =
      let d = due env update w.strings c in
      subst (λ l. Perm l (sent ++ left (before ++ c ∷ after)))
        (sym (append_assoc sent d (left (before ++ finished ∷ after))))
        (Perm.append_left sent (
          Perm.trans (Perm.append_left d (all_due-perm env update w.strings before finished after))
            (Perm.symm (all_due-perm env update w.strings before c after))))

  Turn-Inv : (s t : Calls) → Turn env update s t → Inv s → Inv t
  Turn-Inv s t (reads before after grant r v calls read is) inv =
      let (back, same) =
        read_key_inv env update w s.world v grant r answers (rw inv.world refl) read in
      record {
        sent = inv.sent;
        world = rw is (back ∙ inv.world);
        whole = rw is (
            Perm.trans (same_due inv.sent before after (started grant) (keyed r) same)
              (rw calls at inv.whole));
      }
  Turn-Inv s t (fails before after grant e v calls read is) inv =
      let (back, none_due) =
        read_key_fails env update w s.world v grant e answers (rw inv.world refl) read in
      record {
        sent = inv.sent;
        world = rw is (back ∙ inv.world);
        whole = rw is (
            Perm.trans (same_due inv.sent before after (started grant) finished none_due)
              (rw calls at inv.whole));
      }
  Turn-Inv s t (sends before after r result v calls sending is) inv =
      let d = due env update w.strings (keyed r) in
      let after_it = send_for-sends env update w s.world v r result answers sending in
      record {
        sent = inv.sent ++ d;
        world = rw is (
            after_it
            ∙ ap (λ (x : World). record x { history = x.history ++ d }) inv.world
            ∙ ap (λ (h : List Effect). record w { history = h })
                (append_assoc w.history inv.sent d));
        whole =
            rw is (Perm.trans (sent_due inv.sent before after (keyed r)) (rw calls at inv.whole));
      }

  Turns-Inv : (n : ℕ) (t : Calls) → Turns env update (at_start grants w) n t → Inv t
  Turns-Inv zero t here = start-Inv
  Turns-Inv (suc n) t (later {t = v} before turn) = Turn-Inv v t turn (Turns-Inv n v before)

  abbrev IsFinished : Call → Type 0
  IsFinished c = c ≡ finished

  -- Either every call is finished, or one can take its turn.
  can-Turn :
      (before cs : List Call) (v : World)
      → v.strings ≡ w.strings
      → All IsFinished cs
        ⊎ ((t : Calls) × Turn env update (record { calls = before ++ cs; world = v }) t)
  can-Turn before [] v same = inl tt
  can-Turn before (started grant ∷ cs) v same = elim (Result-cases (members_of grant)) [
    | inl (members, of) ↦ inr (
      _,
      reads before cs grant _ v refl (read_key-ok env update w v grant members answers same of)
          refl,
    )
    | inr (e, of) ↦
        inr (_, fails before cs grant e v refl (read_key-err env update v grant e of) refl)
  ]
  can-Turn before (keyed r ∷ cs) v same = inr (_, sends before cs r _ _ refl refl refl)
  can-Turn before (finished ∷ cs) v same = elim (can-Turn (before ++ finished ∷ []) cs v same) [
    | inl all ↦ inl (refl, all)
    | inr (t, turn) ↦ inr (
      t,
      subst (λ l. Turn env update (record { calls = l; world = v }) t)
          (append_assoc before (finished ∷ []) cs) turn,
    )
  ]

  finished_due : (cs : List Call) → All IsFinished cs → left cs ≡ []
  finished_due [] h = refl
  finished_due (c ∷ cs) h = rw h.0 (finished_due cs h.1)

  -- Whichever turns the calls for the grants take, there are at most two turns for each grant; and after them either
  -- some call can take another, or each is finished and the messages for the grants have been sent, in some order, and
  -- nothing else has been done, where Redis and the broker answer.
  pub any_order :
      (n : ℕ) (t : Calls)
      → Turns env update (at_start grants w) n t
      → (n ≤ 2 * length grants)
        × (((u : Calls) × Turn env update t u)
            ⊎ (All (λ c. c ≡ finished) t.calls
                × ((sent : List Effect) × (t.world ≡ record w { history = w.history ++ sent })
                    × Perm sent (messages env update w.strings grants))))
  any_order n t turns =
      let inv = Turns-Inv n t turns in
      (
        omega (arith, Turns-bounded env update grants w n t turns),
        elim (can-Turn [] t.calls t.world (rw inv.world refl)) [
          | inl all ↦ inr (
            all,
            (
              inv.sent,
              inv.world,
              subst (λ l. Perm l (messages env update w.strings grants)) (append-nil inv.sent)
                  (rw (finished_due t.calls all) at inv.whole),
            ),
          )
          | inr more ↦ inl more
        ],
      )
