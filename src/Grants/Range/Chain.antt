-- ===== src/Grants/Range/Chain.antt =====
-- The loop of `checkContinuousRange` alone, over grants that are sorted by their start.
use core_status.Base.{
  ℕ, suc, ◌≤◌, ◌<◌, ◌≡◌, refl, ap, ◌⊎◌, inl, inr, some, List, [], ◌∷◌, arith, Bool-cases, leb,
  leb→le, le→leb, leb-false→lt, In,
}
use core_status.Data.Errors.{ok, >>=-eq-ok}
use core_status.Data.Entities.{Grant}
use core_status.Grants.Range.{ContinuousRange, extend, scan}

-- The grant reaches over the instant `t`.
abbrev pub Covers : ℕ → ℕ → Grant → Type 0
Covers s t grant = (grant.from_date ≤ s) × (t ≤ grant.to_date)

-- Some grant of the list reaches from `s` to `t`.
abbrev pub Covered : ℕ → ℕ → List Grant → Type 0
Covered s t grants = (g : Grant) × In g grants × Covers s t g

-- The grants start at or after `lo`, in ascending order.
abbrev pub IsSorted : ℕ → List Grant → Type 0
IsSorted lo [] = Unit
IsSorted lo (g ∷ gs) = (lo ≤ g.from_date) × IsSorted g.from_date gs

-- A step keeps the start, never moves the end back, and the new end is the old one or the grant's.
pub extend_inv :
    (c c' : ContinuousRange) (g : Grant)
    → extend c g ≡ ok c'
    → (c'.0 ≡ c.0)
      × (c.1 ≤ c'.1)
      × (g.to_date ≤ c'.1)
      × (g.from_date ≤ c.1)
      × ((c'.1 ≡ c.1) ⊎ (c'.1 ≡ g.to_date))
unfolding extend
extend_inv c c' g h = ground arith

pub scan_inv :
    (c c' : ContinuousRange) (grants : List Grant)
    → scan (some c) grants ≡ ok (some c')
    → (c'.0 ≡ c.0) × (c.1 ≤ c'.1)
unfolding scan
scan_inv c c' [] h = ground arith
scan_inv c c' (g ∷ gs) h =
    let (d, e, k) = >>=-eq-ok (extend c g) (λ d. scan (some d) gs) h in
    omega (arith, extend_inv c d g e, scan_inv d c' gs k)

-- What the loop adds to the range is covered: each unit of time from the old end to the new one.
pub scan_covers :
    (c c' : ContinuousRange) (grants : List Grant)
    → scan (some c) grants ≡ ok (some c')
    → (t : ℕ) → c.1 ≤ t
    → t < c'.1
    → Covered t (suc t) grants
unfolding scan
scan_covers c c' [] h t a b = ground arith
scan_covers c c' (g ∷ gs) h t a b =
    let (d, e, k) = >>=-eq-ok (extend c g) (λ d. scan (some d) gs) h in
    elim (Bool-cases (leb d.1 t)) [
      | inl later ↦
          (let (w, i, cover) = scan_covers d c' gs k t (leb→le _ _ later) b in (w, inr i, cover))
      | inr here ↦ (g, inl refl, omega (arith, extend_inv c d g e, leb-false→lt d.1 t here))
    ]

pub IsSorted-le :
    (lo : ℕ) (g : Grant) (gs : List Grant) → IsSorted lo gs → In g gs → lo ≤ g.from_date
IsSorted-le lo g [] s i = absurd i
IsSorted-le lo g (x ∷ xs) s (inl e) = rw e s.0
IsSorted-le lo g (x ∷ xs) s (inr i) = omega (arith, IsSorted-le x.from_date g xs s.1 i)

-- A grant that starts within the range is no gap.
extend_reaches :
    (c : ContinuousRange) (g : Grant)
    → g.from_date ≤ c.1
    → (d : ContinuousRange) × (extend c g ≡ ok d) × (c.1 ≤ d.1) × (g.to_date ≤ d.1)
unfolding extend
extend_reaches c g h = elim (Bool-cases (leb g.to_date c.1)) [
  | inl e ↦ (c, rw (le→leb _ _ h, e), ground arith, leb→le _ _ e)
  | inr e ↦ ((c.0, g.to_date), rw (le→leb _ _ h, e), ground arith, ground arith)
]

-- Where every unit up to `hi` is covered, the next grant starts within the range.
no_gap :
    (hi lo : ℕ) (c : ContinuousRange) (g : Grant) (gs : List Grant)
    → IsSorted lo (g ∷ gs)
    → g.from_date ≤ hi
    → ((t : ℕ) → c.1 ≤ t → t < hi → Covered t (suc t) (g ∷ gs))
    → g.from_date ≤ c.1
no_gap hi lo c g gs s start covered = elim (Bool-cases (leb g.from_date c.1)) [
  | inl e ↦ leb→le _ _ e
  | inr e ↦
      (let gap = leb-false→lt g.from_date c.1 e in
        let (w, i, cover) = covered c.1 (omega arith) (omega arith) in
        absurd (late w i cover.0 gap))
]
  where
    late : (w : Grant) → In w (g ∷ gs) → w.from_date ≤ c.1 → c.1 < g.from_date → ⊥
    late w (inl e) h gap = omega (arith, ap (λ (x : Grant). x.from_date) e)
    late w (inr i) h gap = omega (arith, IsSorted-le g.from_date w gs s.1 i)

drop_first :
    (d : ContinuousRange) (g : Grant) (gs : List Grant) (t : ℕ)
    → g.to_date ≤ d.1
    → d.1 ≤ t
    → Covered t (suc t) (g ∷ gs)
    → Covered t (suc t) gs
drop_first d g gs t h k (w, inl e, cover) = absurd (omega (arith, ap (λ (x : Grant). x.to_date) e))
drop_first d g gs t h k (w, inr i, cover) = (w, i, cover)

-- Over sorted grants that start by `hi` and cover every unit from the range's end to `hi`, the loop
-- finds no gap and ends at `hi` or later.
pub scan_complete :
    (hi lo : ℕ) (c : ContinuousRange) (grants : List Grant)
    → IsSorted lo grants
    → ((g : Grant) → In g grants → g.from_date ≤ hi)
    → ((t : ℕ) → c.1 ≤ t → t < hi → Covered t (suc t) grants)
    → (c' : ContinuousRange) × (scan (some c) grants ≡ ok (some c')) × (hi ≤ c'.1)
unfolding scan
scan_complete hi lo c [] s starts covered = elim (Bool-cases (leb hi c.1)) [
  | inl done ↦ (c, refl, leb→le _ _ done)
  | inr more ↦ absurd ((covered c.1 (omega arith) (leb-false→lt _ _ more)).1)
]
scan_complete hi lo c (g ∷ gs) s starts covered =
    let (d, e, further, reach) =
      extend_reaches c g (no_gap hi lo c g gs s (starts g (inl refl)) covered) in
    let (c', k, end) =
      scan_complete hi g.from_date d gs s.1 (λ w i. starts w (inr i))
        (λ t a b. drop_first d g gs t reach a (covered t (omega arith) b)) in
    (c', rw e k, end)
