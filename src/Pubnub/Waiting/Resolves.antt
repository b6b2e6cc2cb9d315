-- ===== src/Pubnub/Waiting/Resolves.antt =====
-- When the wait for a subscriber ends, and with which poll.
use mathlib.Core.Bool.{false≢true}
use native.Mathlib.Decide.{dec_lt}
use core_status.Base.{
  ℕ, zero, suc, ◌+◌, ◌≤◌, ◌<◌, ◌≡◌, refl, sym, ap, ◌∙◌, ◌↔◌, ◌⊎◌, inl, inr, String, Bool, true,
  false, Option, none, some, List, [], ◌∷◌, ◌===◌, ===_iff, any_of, In, Bool-cases, Option-cases,
  arith,
}
use core_status.Data.Errors.{Result, ok, err, Error, type_error}
use core_status.Pubnub.Waiting.{
  HereNowResponse, Poll, occupants, is_there, seen, wait_until_subscribed,
}

-- There is a client, and the answer has the channel, with the recipient among its occupants.
abbrev IsSubscribed : String → String → Poll → Type 0
IsSubscribed channel recipient poll =
    (poll.client ≡ true)
    × (response : HereNowResponse) × (uuids : List String) × (poll.answer ≡ ok (some response))
    × (occupants channel response ≡ some uuids)
    × In recipient uuids

-- There is a client, and the answer is empty or has the channel without the recipient.
abbrev IsUnseen : String → String → Poll → Type 0
IsUnseen channel recipient poll =
    (poll.client ≡ true)
    × ((poll.answer ≡ ok none)
        ⊎ ((response : HereNowResponse) × (uuids : List String) × (poll.answer ≡ ok (some response))
            × (occupants channel response ≡ some uuids)
            × ¬ In recipient uuids))

any_of-In :
    (recipient : String) (us : List String)
    → any_of (λ u. u === recipient) us ≡ true
    → In recipient us
any_of-In recipient [] h = cc
any_of-In recipient (u ∷ us) h = elim (Bool-cases (u === recipient)) [
  | inl e ↦ inl (sym ((===_iff u recipient).0 e))
  | inr e ↦ inr (any_of-In recipient us (rw e at h))
]

In-any_of :
    (recipient : String) (us : List String)
    → In recipient us
    → any_of (λ u. u === recipient) us ≡ true
In-any_of recipient [] i = absurd i
In-any_of recipient (u ∷ us) (inl e) = rw ((===_iff u recipient).1 (sym e)) refl
In-any_of recipient (u ∷ us) (inr i) = elim (Bool-cases (u === recipient)) [
  | inl e ↦ rw e refl
  | inr e ↦ rw e (In-any_of recipient us i)
]

ok_value : {a b : Bool} → ok a ≡ ok b → a ≡ b
ok_value h = ground arith

no_result : {a : Bool} → err type_error ≡ ok a → ⊥
no_result h = cc

module _ (channel recipient : String) where
  is_there-true :
      (answer : Result (Option HereNowResponse))
      → is_there channel recipient answer ≡ ok true
      → (response : HereNowResponse) × (uuids : List String) × (answer ≡ ok (some response))
        × (occupants channel response ≡ some uuids)
        × In recipient uuids
  is_there-true (err e) h = cc
  is_there-true (ok none) h = cc
  is_there-true (ok (some response)) h = elim (Option-cases (occupants channel response)) [
    | inl e ↦ absurd (no_result (rw e at h))
    | inr (uuids, e) ↦ (response, uuids, refl, e, any_of-In recipient uuids (ok_value (rw e at h)))
  ]

  seen-IsSubscribed :
      (poll : Poll) → seen channel recipient poll ≡ ok true → IsSubscribed channel recipient poll
  unfolding seen
  seen-IsSubscribed poll h = elim (Bool-cases poll.client) [
    | inl e ↦
        let (response, uuids, is, has, i) = is_there-true poll.answer (rw e at h) in
        (e, response, uuids, is, has, i)
    | inr e ↦ absurd (no_result (rw e at h))
  ]

  IsSubscribed-seen :
      (poll : Poll) → IsSubscribed channel recipient poll → seen channel recipient poll ≡ ok true
  unfolding seen
  IsSubscribed-seen poll (client, response, uuids, is, has, i) =
      rw (client, is, has, In-any_of recipient uuids i) refl

  is_there-false :
      (answer : Result (Option HereNowResponse))
      → is_there channel recipient answer ≡ ok false
      → (answer ≡ ok none)
        ⊎ ((response : HereNowResponse) × (uuids : List String) × (answer ≡ ok (some response))
            × (occupants channel response ≡ some uuids)
            × ¬ In recipient uuids)
  is_there-false (err e) h = cc
  is_there-false (ok none) h = inl refl
  is_there-false (ok (some response)) h = elim (Option-cases (occupants channel response)) [
    | inl e ↦ absurd (no_result (rw e at h))
    | inr (uuids, e) ↦ inr (
      response,
      uuids,
      refl,
      e,
      λ i. false≢true (sym (ok_value (rw e at h)) ∙ In-any_of recipient uuids i),
    )
  ]

  seen-IsUnseen :
      (poll : Poll) → seen channel recipient poll ≡ ok false → IsUnseen channel recipient poll
  unfolding seen
  seen-IsUnseen poll h = elim (Bool-cases poll.client) [
    | inl e ↦ (e, is_there-false poll.answer (rw e at h))
    | inr e ↦ absurd (no_result (rw e at h))
  ]

  not-In :
      (uuids : List String) → ¬ In recipient uuids → any_of (λ u. u === recipient) uuids ≡ false
  not-In uuids out = elim (Bool-cases (any_of (λ u. u === recipient) uuids)) [
    | inl e ↦ absurd (out (any_of-In recipient uuids e))
    | inr e ↦ e
  ]

  IsUnseen-seen :
      (poll : Poll) → IsUnseen channel recipient poll → seen channel recipient poll ≡ ok false
  unfolding seen
  IsUnseen-seen poll (client, inl is) = rw (client, is) refl
  IsUnseen-seen poll (client, inr (response, uuids, is, has, out)) =
      rw (client, is, has, not-In uuids out) refl

outcomes : (r : Result Bool) → (r ≡ ok true) ⊎ (r ≡ ok false) ⊎ ((e : Error) × (r ≡ err e))
outcomes (ok true) = inl refl
outcomes (ok false) = inr (inl refl)
outcomes (err e) = inr (inr (e, refl))

same_poll :
    {m n : ℕ} {a b : Result (Unit {0})}
    → ◌≡◌ {A = Option (ℕ × Result (Unit {0}))} (some (m, a)) (some (n, b))
    → m ≡ n
same_poll h = ground arith

no_resolve :
    {m n : ℕ} {e : Error}
    → ◌≡◌ {A = Option (ℕ × Result (Unit {0}))} (some (m, err e)) (some (n, ok tt))
    → ⊥
no_resolve h = cc

reached : (m n : ℕ) → m ≤ n → ¬ (m < n) → m ≡ n
reached m n from no_less = omega arith

module _ (polls : ℕ → Poll) (channel recipient : String) where
  here_resolves :
      (m n fuel : ℕ)
      → m ≡ n
      → seen channel recipient (polls m) ≡ ok true
      → (m ≤ n)
        × (n < m + suc fuel)
        × (seen channel recipient (polls n) ≡ ok true)
        × ((k : ℕ) → m ≤ k → k < n → seen channel recipient (polls k) ≡ ok false)
  here_resolves m n fuel same e =
      (omega arith, omega arith, rw (← same) e, λ k a b. absurd (omega (arith, same, a, b)))

  loop-resolves :
      (fuel m n : ℕ)
      → wait_until_subscribed polls channel recipient fuel m ≡ some (n, ok tt)
      → (m ≤ n)
        × (n < m + fuel)
        × (seen channel recipient (polls n) ≡ ok true)
        × ((k : ℕ) → m ≤ k → k < n → seen channel recipient (polls k) ≡ ok false)
  unfolding wait_until_subscribed
  loop-resolves zero m n h = cc
  loop-resolves (suc fuel) m n h = elim (outcomes (seen channel recipient (polls m))) [
    | inl e ↦ here_resolves m n fuel (same_poll (rw (wait_until_subscribed, e) at h)) e
    | inr (inl e) ↦
        let (from, to, there, unseen) =
          loop-resolves fuel (suc m) n (rw (wait_until_subscribed, e) at h) in
        (
          omega (arith, from),
          omega (arith, to),
          there,
          λ k a b. elim (dec_lt m k) [ yes p ↦ unseen k p b | no p ↦ rw (← reached m k a p) e ],
        )
    | inr (inr (x, e)) ↦ absurd (no_resolve (rw (wait_until_subscribed, e) at h))
  ]

  resolves-loop :
      (fuel m n : ℕ)
      → m ≤ n
      → n < m + fuel
      → seen channel recipient (polls n) ≡ ok true
      → ((k : ℕ) → m ≤ k → k < n → seen channel recipient (polls k) ≡ ok false)
      → wait_until_subscribed polls channel recipient fuel m ≡ some (n, ok tt)
  unfolding wait_until_subscribed
  resolves-loop zero m n from to there unseen = absurd (omega arith)
  resolves-loop (suc fuel) m n from to there unseen = elim (dec_lt m n) [
    | yes p ↦
        rw (wait_until_subscribed, unseen m (omega arith) p)
          (resolves-loop fuel (suc m) n p (omega arith) there
            (λ k a b. unseen k (omega (arith, a)) b))
    | no p ↦
        let same = reached m n from p in
        rw (wait_until_subscribed, ap (λ k. seen channel recipient (polls k)) same, there)
          (ap (λ k. some (k, ok tt)) same)
  ]

-- The wait is over with poll `n`, where at least so many polls are looked at, exactly when that poll finds the
-- recipient among the occupants of the channel and each poll before it does not; a poll that fails, that has no
-- client or whose answer lacks the channel ends it otherwise.
wait_until_subscribed_iff :
    (polls : ℕ → Poll) (channel recipient : String) (fuel n : ℕ)
    → (wait_until_subscribed polls channel recipient fuel 0 ≡ some (n, ok tt)) ↔ (
        (n < fuel)
        × IsSubscribed channel recipient (polls n)
        × ((k : ℕ) → k < n → IsUnseen channel recipient (polls k)))
wait_until_subscribed_iff polls channel recipient fuel n = (
  λ h.
      let (from, to, there, unseen) = loop-resolves polls channel recipient fuel 0 n h in
      (
        omega (arith, to),
        seen-IsSubscribed channel recipient (polls n) there,
        λ k b. seen-IsUnseen channel recipient (polls k) (unseen k (omega arith) b),
      ),
  λ (to, there, unseen).
      resolves-loop polls channel recipient fuel 0 n (omega arith) (omega (arith, to))
        (IsSubscribed-seen channel recipient (polls n) there)
        (λ k a b. IsUnseen-seen channel recipient (polls k) (unseen k b)),
)
