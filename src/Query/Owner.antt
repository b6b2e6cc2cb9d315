-- ===== src/Query/Owner.antt =====
-- A caller who lists grants sees those of the condition that the controller adds (`getMyGrants`, `getGrantsForMe`
-- of src/products/controllers/status.controller.ts); conditions on relations are lost beside it.
pub mod Restricted
use Prim.Native.String.{◌++◌ as text_append}
use text.Mathlib.TextLemmas.{append-ne-nil_of_right_ne-nil}
use mathlib.Core.List.{append_assoc, append-nil}
use core_status.Base.{
  ℕ, zero, suc, ◌≡◌, ◌≢◌, refl, sym, ap, ◌∙◌, String, Bool, true, false, Option, none, some, List,
  [], ◌∷◌, ◌++◌, ◌===◌, ===_iff, arith, All, In, inl, inr, if◌then◌else◌, Bool-cases, leb,
}
use core_status.Data.Errors.{Result, ok, err, ◌>>=◌, >>=-eq-ok}
use core_status.Query.Text.{split_comma, has_dot}
use core_status.Query.Options.{
  Entry, Filters, QueryOptions, Query, Tipe, condition_of, push_each, place, operator_of,
  criteria_of, map_operator, map_criteria, build_filter, query_params,
}
use core_status.Query.Builder.{
  Call, left_join, where_call, and_where, skip, take, condition_call, condition_calls, query_calls,
  IsBuilder,
}

-- `{...filter, [key]: value}`: a key that is there keeps its place.
unfoldable pub put_entry : String → Option (String × String) → List Entry → List Entry
put_entry key value [] = (key, value) ∷ []
put_entry key value ((k, v) ∷ entries) =
    if k === key then (k, value) ∷ entries else (k, v) ∷ put_entry key value entries

abbrev pub entries_of : Option (List Entry) → List Entry
entries_of none = []
entries_of (some entries) = entries

-- the query of `getMyGrants` and `getGrantsForMe`, by the column that is held to the caller
unfoldable pub restricted_query : String → String → Query → Query
unfolding put_entry
restricted_query column sub query = record query {
  filter = some (put_entry column (some ("is", sub)) (entries_of query.filter));
}

module _ (selects : List Call → List String) (builder : IsBuilder selects) where
  select_more :
      (cs : List Call) (n : ℕ) (xs : List String)
      → All (λ x. x ≢ "") xs
      → selects (cs ++ condition_calls (suc n) xs) ≡ selects cs ++ xs
  unfolding condition_calls
  select_more cs n [] h = ap selects (append-nil cs) ∙ sym (append-nil (selects cs))
  select_more cs n (x ∷ xs) h = elim (Bool-cases (x === "")) [
    | inl empty ↦ absurd (h.0 ((===_iff x "").0 empty))
    | inr filled ↦ rw filled (
        ap selects (sym (append_assoc cs (and_where x ∷ []) (condition_calls (suc (suc n)) xs)))
        ∙ select_more (cs ++ and_where x ∷ []) (suc n) xs h.1
        ∙ ap (λ ys. ys ++ xs) (builder.adds cs x)
        ∙ append_assoc (selects cs) (x ∷ []) xs)
  ]

  select_where :
      (cs : List Call) (x : String) (xs : List String)
      → All (λ x. x ≢ "") (x ∷ xs)
      → selects (cs ++ condition_calls 0 (x ∷ xs)) ≡ x ∷ xs
  unfolding condition_calls
  select_where cs x xs h = elim (Bool-cases (x === "")) [
    | inl empty ↦ absurd (h.0 ((===_iff x "").0 empty))
    | inr filled ↦ rw filled (
        ap selects (sym (append_assoc cs (where_call x ∷ []) (condition_calls 1 xs)))
        ∙ select_more (cs ++ where_call x ∷ []) 0 xs h.1
        ∙ ap (λ ys. ys ++ xs) (builder.sets cs x))
  ]

  trailing : (cs : List Call) (m n : ℕ) → selects (cs ++ skip m ∷ take n ∷ []) ≡ selects cs
  trailing cs m n =
      ap selects (sym (append_assoc cs (skip m ∷ []) (take n ∷ [])))
      ∙ builder.takes (cs ++ skip m ∷ []) n
      ∙ builder.skips cs m

  -- Where there is a condition on a column of the table itself, the conditions on relations are overridden: the
  -- query selects by the former alone, whatever the latter are.
  pub query_drops_relation_filters :
      (options : QueryOptions) (filters : Filters) (x : String) (xs : List String)
      → filters.where_clause ≡ x ∷ xs
      → All (λ y. y ≢ "") (x ∷ xs)
      → selects (query_calls options filters) ≡ filters.where_clause
  unfolding query_calls
  query_drops_relation_filters options filters x xs e h =
      rw e (trailing _ options.pagination.offset options.pagination.limit ∙ select_where _ x xs h)
