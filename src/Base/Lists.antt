-- ===== src/Base/Lists.antt =====
-- Lists over the native numbers, Boolean filters, and predicates on lists by recursion.
use Prim.Native.Nat.{ℕ, suc, ◌+◌}
use mathlib.Core.Path.{◌≡◌, refl, ap, sym, ◌∙◌}
use mathlib.Core.Logic.{◌⊎◌, inl, inr}
use mathlib.Core.Bool.{Bool, true, false, false≢true}
use mathlib.Core.Option.{Option, none, some}
use mathlib.Core.List.{List, [], ◌∷◌, ◌++◌}
use native.Mathlib.Omega.{arith}
use core_status.Base.Tests.{if◌then◌else◌, Bool-cases}

module _ {ℓ} {A : Type ℓ} where
  abbrev pub length : List A → ℕ
  length [] = 0
  length (x ∷ xs) = suc (length xs)

  pub length-append : (xs ys : List A) → length (xs ++ ys) ≡ length xs + length ys
  length-append [] ys = omega arith
  length-append (x ∷ xs) ys = omega (arith, length-append xs ys)

  -- `Array.prototype.filter`
  abbrev pub select : (A → Bool) → List A → List A
  select p [] = []
  select p (x ∷ xs) = if p x then x ∷ select p xs else select p xs

  -- `Array.prototype.find`, with `none` for `undefined`
  abbrev pub find : (A → Bool) → List A → Option A
  find p [] = none
  find p (x ∷ xs) = if p x then some x else find p xs

  -- `Array.prototype.some`
  abbrev pub any_of : (A → Bool) → List A → Bool
  any_of p [] = false
  any_of p (x ∷ xs) = if p x then true else any_of p xs

  -- The rows that satisfy `p` are changed by `f`, and the others are left alone.
  abbrev pub change : (A → Bool) → (A → A) → List A → List A
  change p f [] = []
  change p f (x ∷ xs) = (if p x then f x else x) ∷ change p f xs

module _ {A : Type 0} where
  -- `x` is one of the list.
  abbrev pub In : A → List A → Type 0
  In x [] = ⊥
  In x (y ∷ ys) = (x ≡ y) ⊎ In x ys

  -- Every element satisfies `P`.
  abbrev pub All : (A → Type 0) → List A → Type 0
  All P [] = Unit
  All P (x ∷ xs) = P x × All P xs

  pub All-In : (P : A → Type 0) (x : A) (xs : List A) → All P xs → In x xs → P x
  All-In P x [] h i = absurd i
  All-In P x (y ∷ ys) h (inl e) = rw e h.0
  All-In P x (y ∷ ys) h (inr i) = All-In P x ys h.1 i

  pub All-of_In : (P : A → Type 0) (xs : List A) → ((x : A) → In x xs → P x) → All P xs
  All-of_In P [] h = tt
  All-of_In P (x ∷ xs) h = (h x (inl refl), All-of_In P xs (λ y i. h y (inr i)))

  keep :
      (p : A → Bool) (x y : A) (ys : List A)
      → p y ≡ true
      → (In x (select p ys) → In x ys × (p x ≡ true))
      → (x ≡ y) ⊎ In x (select p ys)
      → In x (y ∷ ys) × (p x ≡ true)
  keep p x y ys e rec (inl same) = (inl same, rw same e)
  keep p x y ys e rec (inr j) = let (k, h) = rec j in (inr k, h)

  pub In-select : (p : A → Bool) (x : A) (xs : List A) → In x (select p xs) → In x xs × (p x ≡ true)
  In-select p x [] i = absurd i
  In-select p x (y ∷ ys) i = elim (Bool-cases (p y)) [
    | inl e ↦ keep p x y ys e (In-select p x ys) (rw e at i)
    | inr e ↦ let (j, h) = In-select p x ys (rw e at i) in (inr j, h)
  ]

  pub select-In : (p : A → Bool) (x : A) (xs : List A) → In x xs → p x ≡ true → In x (select p xs)
  select-In p x [] i h = absurd i
  select-In p x (y ∷ ys) (inl same) h = rw (← same, h) (inl refl)
  select-In p x (y ∷ ys) (inr j) h = elim (Bool-cases (p y)) [
    | inl e ↦ rw e (inr (select-In p x ys j h))
    | inr e ↦ rw e (select-In p x ys j h)
  ]

  -- `find` succeeds when some element passes, and what it finds passes.
  abbrev pub Finds : (A → Bool) → List A → Type 0
  Finds p xs = (y : A) × (find p xs ≡ some y) × (p y ≡ true) × In y xs

  skip :
      (p : A → Bool) (x y : A) (ys : List A)
      → p x ≡ true
      → p y ≡ false
      → (In x ys → Finds p ys)
      → In x (y ∷ ys)
      → Finds p (y ∷ ys)
  skip p x y ys h e rec (inl same) = absurd (false≢true (sym e ∙ ap p (sym same) ∙ h))
  skip p x y ys h e rec (inr j) = let (z, f, q, k) = rec j in (z, rw e f, q, inr k)

  pub find_of_In : (p : A → Bool) (x : A) (xs : List A) → In x xs → p x ≡ true → Finds p xs
  find_of_In p x [] i h = absurd i
  find_of_In p x (y ∷ ys) i h = elim (Bool-cases (p y)) [
    | inl e ↦ (y, rw e, e, inl refl)
    | inr e ↦ skip p x y ys h e (λ j. find_of_In p x ys j h) i
  ]

  some_value : {x y : A} → some x ≡ some y → x ≡ y
  some_value h = ground arith

  first_found :
      (p : A → Bool) (x y : A) (xs : List A) → x ≡ y → p x ≡ true → In y (x ∷ xs) × (p y ≡ true)
  first_found p x y xs same e = (inl (sym same), rw (← same) e)

  pub In-find : (p : A → Bool) (y : A) (xs : List A) → find p xs ≡ some y → In y xs × (p y ≡ true)
  In-find p y [] h = cc
  In-find p y (x ∷ xs) h = elim (Bool-cases (p x)) [
    | inl e ↦ first_found p x y xs (some_value (rw e at h)) e
    | inr e ↦ let (i, passes) = In-find p y xs (rw e at h) in (inr i, passes)
  ]

  pub length-select-append :
      (p : A → Bool) (xs : List A) (y : A)
      → length (select p (xs ++ y ∷ [])) ≡ length (select p xs) + (if p y then 1 else 0)
  length-select-append p [] y = ground arith
  length-select-append p (x ∷ xs) y = ground (arith, length-select-append p xs y)

  pub select_none :
      (p : A → Bool) (xs : List A) → ((x : A) → In x xs → p x ≡ false) → select p xs ≡ []
  select_none p [] h = refl
  select_none p (x ∷ xs) h = rw (h x (inl refl)) (select_none p xs (λ y i. h y (inr i)))

pub In-append_left : {A : Type 0} (x : A) (xs ys : List A) → In x xs → In x (xs ++ ys)
In-append_left x [] ys i = absurd i
In-append_left x (y ∷ xs) ys (inl e) = inl e
In-append_left x (y ∷ xs) ys (inr i) = inr (In-append_left x xs ys i)

pub In-append_right : {A : Type 0} (x : A) (xs ys : List A) → In x ys → In x (xs ++ ys)
In-append_right x [] ys i = i
In-append_right x (y ∷ xs) ys i = inr (In-append_right x xs ys i)

pub In-change :
    {A : Type 0} (p : A → Bool) (f : A → A) (x : A) (xs : List A)
    → In x xs
    → p x ≡ true
    → In (f x) (change p f xs)
In-change p f x [] i h = absurd i
In-change p f x (y ∷ ys) (inl same) h = rw (← same, h) (inl refl)
In-change p f x (y ∷ ys) (inr j) h = inr (In-change p f x ys j h)

pub change-In :
    {A : Type 0} (p : A → Bool) (f : A → A) (x : A) (xs : List A)
    → In x (change p f xs)
    → (y : A) × In y xs × (x ≡ (if p y then f y else y))
change-In p f x [] i = absurd i
change-In p f x (y ∷ ys) (inl same) = (y, inl refl, same)
change-In p f x (y ∷ ys) (inr j) = let (z, k, e) = change-In p f x ys j in (z, inr k, e)
