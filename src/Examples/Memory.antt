-- ===== src/Examples/Memory.antt =====
-- A table in memory, which keeps the laws of a repository.
use core_status.Base.{
  Bool, true, false, not, none, some, List, [], ◌∷◌, ◌++◌, ◌≡◌, sym, In, In-select, select-In,
  select, find, find_of_In, change, map, inl, inr, Bool-cases, arith,
}
use core_status.Data.Errors.{ok}
use core_status.Effects.{Table}
use core_status.Effects.Laws.{IsTable}

-- `make` gives the row that is stored for what is saved, from the rows that are there.
abbrev pub memory_table : {E D : Type 0} → (D → List E → E) → Table E D
memory_table make = record {
  find = λ p rows. ok (select p rows);
  find_one = λ p rows. ok (find p rows);
  insert = λ d rows. ok (make d rows, rows ++ make d rows ∷ []);
  update = λ p f rows. ok (map f (select p rows), change p f rows);
  remove = λ p rows. ok (select p rows, select (λ x. not (p x)) rows);
}

find_some :
    {E : Type 0} (p : E → Bool) (rows : List E) (x : E)
    → find p rows ≡ some x
    → In x rows × (p x ≡ true)
find_some p [] x h = cc
find_some p (y ∷ ys) x h = elim (Bool-cases (p y)) [
  | inl e ↦ (let same : y ≡ x = ground arith in (inl (sym same), rw (← same) e))
  | inr e ↦ (let (i, q) = find_some p ys x (ground arith) in (inr i, q))
]

find_none :
    {E : Type 0} (p : E → Bool) (rows : List E) (x : E)
    → find p rows ≡ none
    → In x rows
    → p x ≡ false
find_none p rows x h i = elim (Bool-cases (p x)) [
  | inl e ↦ (let (y, found, _, _) = find_of_In p x rows i e in absurd (ground arith))
  | inr e ↦ e
]

pub memory_table-IsTable : {E D : Type 0} (make : D → List E → E) → IsTable (memory_table make)
memory_table-IsTable make = record {
  find_sound = λ p rows found h x i. In-select p x rows (ground arith);
  find_complete = λ p rows found h x i e. ground (arith, select-In p x rows i e);
  find_one_some = λ p rows x h. find_some p rows x (ground arith);
  find_one_none = λ p rows h x i. find_none p rows x (ground arith) i;
  insert_adds = λ d rows rows' x h. ground arith;
  update_changes = λ p f rows hit rows' h. (ground arith, ground arith);
  remove_takes = λ p rows gone rows' h. (ground arith, ground arith);
}
