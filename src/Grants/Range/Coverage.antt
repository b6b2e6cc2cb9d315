-- ===== src/Grants/Range/Coverage.antt =====
-- What `checkContinuousRange` decides: the grants reach over the whole requested range.
use core_status.Base.{
  ℕ, zero, suc, String, ◌≤◌, ◌<◌, ◌≡◌, ◌≢◌, ◌↔◌, refl, inl, inr, Option, none, some, List, [], ◌∷◌,
  arith, Bool-cases, leb, leb→le, leb-false→lt, In,
}
use core_status.Data.Errors.{ok, ◌>>=◌, >>=-eq-ok}
use core_status.Data.Entities.{Grant}
use core_status.Data.Requests.{TimeRangeDto}
use core_status.Grants.Range.{ContinuousRange, extend, scan, conclude, check_continuous_range}
use core_status.Grants.Range.Chain.{
  Covered, IsSorted, extend_inv, scan_inv, scan_covers, scan_complete, IsSorted-le,
}

-- What lodash documents of `_.sortBy(grants, "fromDate")`: the same grants, by ascending start.
pub record IsSortBy (sort_by : List Grant → List Grant) : Type 0 where
  pub keeps : (g : Grant) (gs : List Grant) → In g gs → In g (sort_by gs)
  pub adds_none : (g : Grant) (gs : List Grant) → In g (sort_by gs) → In g gs
  pub sorted : (gs : List Grant) → IsSorted 0 (sort_by gs)

-- Every unit of time from `lo` to `hi` lies within one of the grants.
abbrev pub CoversRange : ℕ → ℕ → List Grant → Type 0
CoversRange lo hi grants = (t : ℕ) → lo ≤ t → t < hi → Covered t (suc t) grants

-- Inversion of the end of `checkContinuousRange`.
conclude_inv :
    (date : String → Option ℕ) (range : TimeRangeDto) (lo hi : ℕ) (c : Option ContinuousRange)
    → date range.from_date ≡ some lo
    → date range.to_date ≡ some hi
    → conclude date range c ≡ ok tt
    → (d : ContinuousRange) × (c ≡ some d) × (d.0 ≤ lo) × (hi ≤ d.1)
unfolding conclude
conclude_inv date range lo hi none p q h = cc
conclude_inv date range lo hi (some d) p q h = (d, refl, ground arith, ground arith)

conclude_ok :
    (date : String → Option ℕ) (range : TimeRangeDto) (lo hi : ℕ) (d : ContinuousRange)
    → date range.from_date ≡ some lo
    → date range.to_date ≡ some hi
    → d.0 ≤ lo
    → hi ≤ d.1
    → conclude date range (some d) ≡ ok tt
unfolding conclude
conclude_ok date range lo hi d p q a b = ground arith

-- Of the range that the loop builds from the first grant on, every unit is covered.
scan_first :
    (g : Grant) (gs : List Grant) (d : ContinuousRange)
    → scan none (g ∷ gs) ≡ ok (some d)
    → (d.0 ≡ g.from_date)
      × (g.from_date ≤ g.to_date)
      × (g.to_date ≤ d.1)
      × CoversRange d.0 d.1 (g ∷ gs)
unfolding scan
scan_first g gs d h =
    let c : ContinuousRange = (g.from_date, g.to_date) in
    let (e, first, rest) = >>=-eq-ok (extend c g) (λ e. scan (some e) gs) h in
    let i = extend_inv c e g first in
    let j = scan_inv e d gs rest in
    (
      omega arith,
      omega arith,
      omega arith,
      λ t a b. elim (Bool-cases (leb e.1 t)) [
        | inl later ↦
            (let (w, k, cover) = scan_covers e d gs rest t (leb→le _ _ later) b in
              (w, inr k, cover))
        | inr here ↦ (g, inl refl, omega (arith, i, j, leb-false→lt e.1 t here))
      ],
    )

scan_first_point :
    (g : Grant) (gs : List Grant) (d : ContinuousRange)
    → scan none (g ∷ gs) ≡ ok (some d)
    → (t : ℕ) → d.0 ≤ t
    → t ≤ d.1
    → Covered t t (g ∷ gs)
scan_first_point g gs d h zero a b =
    let (start, order, end, units) = scan_first g gs d h in (g, inl refl, omega arith)
scan_first_point g gs d h (suc t) a b =
    let (start, order, end, units) = scan_first g gs d h in
    elim (Bool-cases (leb d.0 t)) [
      | inl before ↦ (let (w, i, cover) = units t (leb→le _ _ before) b in (w, i, omega arith))
      | inr here ↦ (g, inl refl, omega (arith, leb-false→lt d.0 t here))
    ]

module _ (sort_by : List Grant → List Grant) (sorts : IsSortBy sort_by) (date : String → Option ℕ)
    (range : TimeRangeDto) (lo hi : ℕ) (from : date range.from_date ≡ some lo)
    (to : date range.to_date ≡ some hi) where
  Passes : List Grant → Type 0
  Passes grants = check_continuous_range sort_by date grants range ≡ ok tt

  -- What a passed check says of the loop.
  passed_inv :
      (sorted : List Grant)
      → (scan none sorted >>= conclude date range) ≡ ok tt
      → (g : Grant) × (gs : List Grant) × (d : ContinuousRange) × (sorted ≡ g ∷ gs)
        × (scan none (g ∷ gs) ≡ ok (some d))
        × (d.0 ≤ lo)
        × (hi ≤ d.1)
  unfolding scan
  passed_inv sorted h =
      let (c, k, end) = >>=-eq-ok (scan none sorted) (conclude date range) h in
      let (d, e, a, b) = conclude_inv date range lo hi c from to end in go sorted d (rw e at k) a b
    where
      go :
          (xs : List Grant) (d : ContinuousRange)
          → scan none xs ≡ ok (some d)
          → d.0 ≤ lo
          → hi ≤ d.1
          → (g : Grant) × (gs : List Grant) × (d : ContinuousRange) × (xs ≡ g ∷ gs)
            × (scan none (g ∷ gs) ≡ ok (some d))
            × (d.0 ≤ lo)
            × (hi ≤ d.1)
      go [] d k a b = cc
      go (g ∷ gs) d k a b = (g, gs, d, refl, k, a, b)

  Covered-sort : (s t : ℕ) (grants : List Grant) → Covered s t (sort_by grants) → Covered s t grants
  Covered-sort s t grants (w, i, cover) = (w, sorts.adds_none w grants i, cover)

  -- Where the check passes, every instant of the requested range lies within one of the grants.
  pub check_continuous_range_sound :
      (grants : List Grant)
      → check_continuous_range sort_by date grants range ≡ ok tt
      → (t : ℕ) → lo ≤ t
      → t ≤ hi
      → Covered t t grants
  unfolding check_continuous_range
  check_continuous_range_sound grants h t a b =
      let (g, gs, d, e, k, p, q) = passed_inv (sort_by grants) h in
      Covered-sort t t grants (rw e (scan_first_point g gs d k t (omega arith) (omega arith)))

  -- Each grant of the list runs forward and meets the requested range.
  abbrev pub MeetsRange : Grant → Type 0
  MeetsRange g = (g.from_date ≤ g.to_date) × (g.from_date ≤ hi) × (lo ≤ g.to_date)

  first_starts :
      (g : Grant) (gs : List Grant)
      → lo ≤ hi
      → IsSorted 0 (g ∷ gs)
      → g.from_date ≤ hi
      → CoversRange lo hi (g ∷ gs)
      → g.from_date ≤ lo
  first_starts g gs order sorted start covered = elim (Bool-cases (leb hi lo)) [
    | inl point ↦ omega (arith, leb→le hi lo point)
    | inr longer ↦
        (let (w, i, cover) = covered lo (omega arith) (leb-false→lt hi lo longer) in
          omega (arith, IsSorted-le g.from_date w (g ∷ gs) (omega arith, sorted.1) i))
  ]

  sorted_passes :
      (g : Grant) (gs : List Grant)
      → lo ≤ hi
      → IsSorted 0 (g ∷ gs)
      → ((w : Grant) → In w (g ∷ gs) → MeetsRange w)
      → CoversRange lo hi (g ∷ gs)
      → (scan none (g ∷ gs) >>= conclude date range) ≡ ok tt
  unfolding scan
  sorted_passes g gs order sorted meets covered =
      let c : ContinuousRange = (g.from_date, g.to_date) in
      let here = meets g (inl refl) in
      let (d, k, reach) =
        scan_complete hi 0 c (g ∷ gs) sorted (λ w i. (meets w i).1)
          (λ t a b. covered t (omega arith) b) in
      let inv = scan_inv c d (g ∷ gs) k in
      let start = first_starts g gs order sorted here.1 covered in
      rw k (conclude_ok date range lo hi d from to (omega arith) reach)

  passes_sorted :
      (grants sorted : List Grant)
      → sort_by grants ≡ sorted
      → lo ≤ hi
      → grants ≢ []
      → ((w : Grant) → In w grants → MeetsRange w)
      → CoversRange lo hi grants
      → (scan none sorted >>= conclude date range) ≡ ok tt
  passes_sorted [] sorted e order some_grant meets covered = absurd (some_grant refl)
  passes_sorted (x ∷ xs) [] e order some_grant meets covered =
      absurd (rw e at (sorts.keeps x (x ∷ xs) (inl refl)))
  passes_sorted (x ∷ xs) (g ∷ gs) e order some_grant meets covered =
      sorted_passes g gs order (rw e at (sorts.sorted (x ∷ xs)))
        (λ w i. meets w (sorts.adds_none w (x ∷ xs) (rw e i)))
        (λ t a b.
          let (w, i, cover) = covered t a b in (w, (rw e at (sorts.keeps w (x ∷ xs) i)), cover))

  -- Over grants that each run forward and meet the requested range, the check passes exactly when
  -- there is a grant and every unit of the range lies within one of the grants.
  pub check_continuous_range_iff :
      (grants : List Grant)
      → lo ≤ hi
      → ((w : Grant) → In w grants → MeetsRange w)
      → (check_continuous_range sort_by date grants range ≡ ok tt)
        ↔ ((grants ≢ []) × CoversRange lo hi grants)
  unfolding check_continuous_range
  check_continuous_range_iff grants order meets = (
    λ h.
        let (g, gs, d, e, k, p, q) = passed_inv (sort_by grants) h in
        let (start, forward, end, units) = scan_first g gs d k in
        (
          λ none_there. nonempty g grants (sorts.adds_none g grants (rw e (inl refl))) none_there,
          λ t a b. Covered-sort t (suc t) grants (rw e (units t (omega arith) (omega arith))),
        ),
    λ h. passes_sorted grants (sort_by grants) refl order h.0 meets h.1,
  )
    where
      nonempty : (g : Grant) (xs : List Grant) → In g xs → xs ≢ []
      nonempty g [] i e = absurd i
      nonempty g (x ∷ xs) i e = cc
