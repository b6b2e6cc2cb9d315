-- ===== src/Examples/Sorting.antt =====
-- A sort of grants by their start, which does what lodash documents of `_.sortBy`.
use core_status.Base.{
  ℕ, ◌≤◌, List, [], ◌∷◌, In, leb, leb→le, leb-false→lt, if◌then◌else◌, inl, inr, Bool-cases, arith,
}
use core_status.Data.Entities.{Grant}
use core_status.Grants.Range.Chain.{IsSorted}
use core_status.Grants.Range.Coverage.{IsSortBy}

abbrev insert_grant : Grant → List Grant → List Grant
insert_grant g [] = g ∷ []
insert_grant g (x ∷ xs) = if leb g.from_date x.from_date then g ∷ x ∷ xs else x ∷ insert_grant g xs

abbrev pub sort_grants : List Grant → List Grant
sort_grants [] = []
sort_grants (g ∷ gs) = insert_grant g (sort_grants gs)

insert_grant-IsSorted :
    (lo : ℕ) (g : Grant) (xs : List Grant)
    → lo ≤ g.from_date
    → IsSorted lo xs
    → IsSorted lo (insert_grant g xs)
insert_grant-IsSorted lo g [] a s = (a, tt)
insert_grant-IsSorted lo g (x ∷ xs) a s = elim (Bool-cases (leb g.from_date x.from_date)) [
  | inl e ↦ rw e (a, (leb→le _ _ e, s.1))
  | inr e ↦
      rw e (s.0, insert_grant-IsSorted x.from_date g xs (omega (arith, leb-false→lt _ _ e)) s.1)
]

sort_grants-IsSorted : (gs : List Grant) → IsSorted 0 (sort_grants gs)
sort_grants-IsSorted [] = tt
sort_grants-IsSorted (g ∷ gs) =
    insert_grant-IsSorted 0 g (sort_grants gs) (omega arith) (sort_grants-IsSorted gs)

swapped :
    (y g x : Grant) (xs ys : List Grant)
    → (In y ys → In y (g ∷ xs))
    → In y (x ∷ ys)
    → In y (g ∷ x ∷ xs)
swapped y g x xs ys rec (inl same) = inr (inl same)
swapped y g x xs ys rec (inr j) = elim (rec j) [ inl same ↦ inl same | inr k ↦ inr (inr k) ]

In-insert_grant : (y g : Grant) (xs : List Grant) → In y (insert_grant g xs) → In y (g ∷ xs)
In-insert_grant y g [] i = i
In-insert_grant y g (x ∷ xs) i = elim (Bool-cases (leb g.from_date x.from_date)) [
  | inl e ↦ rw e at i
  | inr e ↦ swapped y g x xs (insert_grant g xs) (In-insert_grant y g xs) (rw e at i)
]

pushed :
    (y g x : Grant) (xs ys : List Grant)
    → (In y (g ∷ xs) → In y ys)
    → In y (g ∷ x ∷ xs)
    → In y (x ∷ ys)
pushed y g x xs ys rec (inl same) = inr (rec (inl same))
pushed y g x xs ys rec (inr (inl same)) = inl same
pushed y g x xs ys rec (inr (inr k)) = inr (rec (inr k))

insert_grant-In : (y g : Grant) (xs : List Grant) → In y (g ∷ xs) → In y (insert_grant g xs)
insert_grant-In y g [] i = i
insert_grant-In y g (x ∷ xs) i = elim (Bool-cases (leb g.from_date x.from_date)) [
  | inl e ↦ rw e i
  | inr e ↦ rw e (pushed y g x xs (insert_grant g xs) (insert_grant-In y g xs) i)
]

sort_grants-In : (y : Grant) (gs : List Grant) → In y gs → In y (sort_grants gs)
sort_grants-In y [] i = i
sort_grants-In y (g ∷ gs) (inl same) = insert_grant-In y g (sort_grants gs) (inl same)
sort_grants-In y (g ∷ gs) (inr j) =
    insert_grant-In y g (sort_grants gs) (inr (sort_grants-In y gs j))

In-sort_grants : (y : Grant) (gs : List Grant) → In y (sort_grants gs) → In y gs
In-sort_grants y [] i = i
In-sort_grants y (g ∷ gs) i = elim (In-insert_grant y g (sort_grants gs) i) [
  | inl same ↦ inl same
  | inr j ↦ inr (In-sort_grants y gs j)
]

pub sort_grants-IsSortBy : IsSortBy sort_grants
sort_grants-IsSortBy = record {
  keeps = sort_grants-In;
  adds_none = In-sort_grants;
  sorted = sort_grants-IsSorted;
}
