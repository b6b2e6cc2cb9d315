-- ===== src/Access/Laws.antt =====
-- When a token passes the scope check.
use core_status.Base.{
  ℕ, suc, ◌+◌, ◌≤◌, String, ◌≡◌, ◌≢◌, ◌↔◌, refl, sym, true, false, List, [], ◌∷◌, arith, length,
  select, includes, ◌===◌, ===_iff, inl, inr, if◌then◌else◌, Bool-cases,
}
use core_status.Data.Errors.{ok}
use core_status.Data.Requests.{TokenData}
use core_status.Access.{scoped_token}

-- how often the scope stands in the list
abbrev pub times : String → List String → ℕ
times s [] = 0
times s (t ∷ ts) = if t === s then suc (times s ts) else times s ts

abbrev pub Distinct : List String → Type 0
Distinct [] = Unit
Distinct (s ∷ ss) = (includes ss s ≡ false) × Distinct ss

abbrev total : List String → List String → ℕ
total [] ts = 0
total (s ∷ ss) ts = times s ts + total ss ts

select_cons :
    (s : String) (ss ts : List String)
    → includes ss s ≡ false
    → length (select (includes (s ∷ ss)) ts) ≡ times s ts + length (select (includes ss) ts)
select_cons s ss [] h = omega arith
select_cons s ss (t ∷ ts) h = elim (Bool-cases (s === t)) [
  | inl same ↦
      (let e = (===_iff s t).0 same in
        let out : includes ss t ≡ false = rw (← e) h in
        let back : (t === s) ≡ true = (===_iff t s).1 (sym e) in
        ground (arith, select_cons s ss ts h))
  | inr other ↦ ground (arith, ===_iff s t, ===_iff t s, select_cons s ss ts h)
]

select-total : (ss ts : List String) → Distinct ss → length (select (includes ss) ts) ≡ total ss ts
select-total [] [] h = refl
select-total [] (t ∷ ts) h = select-total [] ts h
select-total (s ∷ ss) ts h = omega (arith, select_cons s ss ts h.0, select-total ss ts h.1)

includes_of_times : (s : String) (ts : List String) → 1 ≤ times s ts → includes ts s ≡ true
includes_of_times s [] h = absurd (omega arith)
includes_of_times s (t ∷ ts) h = ground (arith, includes_of_times s ts)

times_of_includes : (s : String) (ts : List String) → includes ts s ≡ true → 1 ≤ times s ts
times_of_includes s [] h = cc
times_of_includes s (t ∷ ts) h = ground (arith, times_of_includes s ts)

-- Every scope of the first list is in the second.
abbrev pub Contains : List String → List String → Type 0
Contains [] ts = Unit
Contains (s ∷ ss) ts = (includes ts s ≡ true) × Contains ss ts

total_le : (ss ts : List String) → ((s : String) → times s ts ≤ 1) → total ss ts ≤ length ss
total_le [] ts h = omega arith
total_le (s ∷ ss) ts h = omega (arith, h s, total_le ss ts h)

total_full :
    (ss ts : List String)
    → ((s : String) → times s ts ≤ 1)
    → (total ss ts ≡ length ss) ↔ Contains ss ts
total_full [] ts h = ((λ e. tt), (λ c. refl))
total_full (s ∷ ss) ts h = (
  (λ e. (
    includes_of_times s ts (omega (arith, h s, total_le ss ts h)),
    (total_full ss ts h).0 (omega (arith, h s, total_le ss ts h)),
  )),
  (λ c. omega (arith, h s, times_of_includes s ts c.0, (total_full ss ts h).1 c.1)),
)

-- Of a token that names no scope twice: it passes exactly when it has every required scope, if the required
-- ones are distinct.
pub scoped_token_iff :
    (scopes : List String) (token : TokenData)
    → Distinct scopes
    → ((s : String) → times s token.scopes ≤ 1)
    → (scoped_token scopes token ≡ ok token) ↔ Contains scopes token.scopes
unfolding scoped_token
scoped_token_iff scopes token distinct once = (
  (λ h.
      (total_full scopes token.scopes once).0
        (ground (arith, select-total scopes token.scopes distinct))),
  (λ c. ground (
    arith,
    select-total scopes token.scopes distinct,
    (total_full scopes token.scopes once).1 c,
  )),
)

-- A token that names one of two required scopes twice passes without the other.
pub scoped_token_duplicate :
    (a b : String) (token : TokenData)
    → a ≢ b
    → token.scopes ≡ a ∷ a ∷ []
    → (scoped_token (a ∷ b ∷ []) token ≡ ok token) × (includes token.scopes b ≡ false)
unfolding scoped_token
scoped_token_duplicate a b token ne e =
    (rw e (ground (arith, ===_iff a a)), rw e (ground (arith, ===_iff a b)))
