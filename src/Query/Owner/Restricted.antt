-- ===== src/Query/Owner/Restricted.antt =====
-- The condition on the caller that the listings of grants add to every query.
use text.Mathlib.TextLemmas.{append-ne-nil_of_right_ne-nil}
use core_status.Base.{
  ◌≡◌, ◌≢◌, refl, String, false, some, List, [], ◌∷◌, ◌===◌, ===_iff, arith, All, In, inl, inr,
  Bool-cases,
}
use core_status.Data.Errors.{ok, >>=-eq-ok, Result-cases}
use core_status.Query.Text.{split_comma, has_dot, space_filled}
use core_status.Query.Options.{
  Entry, Filters, QueryOptions, Query, Tipe, general, condition_of, push_each, place, operator_of,
  criteria_of, map_operator, build_filter, query_params,
}
use core_status.Query.Builder.{Call, query_calls, IsBuilder}
use core_status.Query.Owner.{put_entry, entries_of, restricted_query, query_drops_relation_filters}

-- the condition on the caller
abbrev pub caller_condition : String → String → String
caller_condition column sub = condition_of column ("=", general) sub

-- The key names one column of the table itself.
abbrev pub IsColumn : String → Type 0
IsColumn column = (has_dot column ≡ false) × (split_comma "" column ≡ column ∷ [])

In-push_each :
    (fs : List String) (c x : String) (list : List String) → In x list → In x (push_each fs c list)
In-push_each [] c x list i = i
In-push_each (f ∷ fs) c x list i = inr (In-push_each fs c x list i)

In-place :
    (key c x : String) (f : Filters) → In x f.where_clause → In x (place key c f).where_clause
In-place key c x f i = elim (Bool-cases (has_dot key)) [
  | inl e ↦ rw e i
  | inr e ↦ rw e (In-push_each (split_comma "" key) c x f.where_clause i)
]

In-place_column :
    (column c : String) (f : Filters) → IsColumn column → In c (place column c f).where_clause
In-place_column column c f (dot, split) = rw (dot, split) (inl refl)

restricted_first :
    (column sub : String) (entries : List Entry) (f : Filters)
    → IsColumn column
    → build_filter ((column, some ("is", sub)) ∷ entries) ≡ ok f
    → In (caller_condition column sub) f.where_clause
unfolding build_filter map_operator
restricted_first column sub entries f h e =
    let (rest, _, last) = >>=-eq-ok (build_filter entries) _ e in
    let same : place column (caller_condition column sub) rest ≡ f = ground arith in
    rw (← same) (In-place_column column (caller_condition column sub) rest h)

build_filter_restricted :
    (column sub : String) (entries : List Entry) (f : Filters)
    → IsColumn column
    → build_filter (put_entry column (some ("is", sub)) entries) ≡ ok f
    → In (caller_condition column sub) f.where_clause
unfolding build_filter put_entry
build_filter_restricted column sub [] f h e = restricted_first column sub [] f h e
build_filter_restricted column sub ((k, v) ∷ entries) f h e = elim (Bool-cases (k === column)) [
  | inl same ↦ restricted_first column sub entries f h (rw (same, (===_iff k column).0 same) at e)
  | inr other ↦
      (let (operator, _, e₁) = >>=-eq-ok (map_operator (operator_of v)) _ (rw other at e) in
        let (rest, later, e₂) =
          >>=-eq-ok (build_filter (put_entry column (some ("is", sub)) entries)) _ e₁ in
        let back : place k (condition_of k operator (criteria_of v)) rest ≡ f = ground arith in
        rw (← back) (
          In-place k (condition_of k operator (criteria_of v)) _ rest
            (build_filter_restricted column sub entries rest h later)))
]

-- Every condition of a filter that is built is a text that is not empty.
push_each_filled :
    (fs : List String) (c : String) (list : List String)
    → c ≢ ""
    → All (λ x. x ≢ "") list
    → All (λ x. x ≢ "") (push_each fs c list)
push_each_filled [] c list h a = a
push_each_filled (f ∷ fs) c list h a = (h, push_each_filled fs c list h a)

place_filled :
    (key c : String) (f : Filters)
    → c ≢ ""
    → All (λ x. x ≢ "") f.where_clause
    → All (λ x. x ≢ "") (place key c f).where_clause
place_filled key c f h a = elim (Bool-cases (has_dot key)) [
  | inl e ↦ rw e a
  | inr e ↦ rw e (push_each_filled (split_comma "" key) c f.where_clause h a)
]

condition_filled :
    (key : String) (o : String × Tipe) (criteria : String) → condition_of key o criteria ≢ ""
condition_filled key o criteria = append-ne-nil_of_right_ne-nil key (space_filled _)

build_filter_filled :
    (entries : List Entry) (f : Filters)
    → build_filter entries ≡ ok f
    → All (λ x. x ≢ "") f.where_clause
unfolding build_filter
build_filter_filled [] f e =
    let same : record { filter = []; where_clause = [] } ≡ f = ground arith in rw (← same) tt
build_filter_filled ((k, v) ∷ entries) f e =
    let (operator, _, e₁) = >>=-eq-ok (map_operator (operator_of v)) _ e in
    let (rest, later, e₂) = >>=-eq-ok (build_filter entries) _ e₁ in
    let back : place k (condition_of k operator (criteria_of v)) rest ≡ f = ground arith in
    rw (← back) (
      place_filled k (condition_of k operator (criteria_of v)) rest
        (condition_filled k operator (criteria_of v)) (build_filter_filled entries rest later))

selects_caller :
    (selects : List Call → List String) (builder : IsBuilder selects) (options : QueryOptions)
    (f : Filters) (x : String) (ws : List String)
    → f.where_clause ≡ ws
    → In x ws
    → All (λ y. y ≢ "") ws
    → In x (selects (query_calls options f))
selects_caller selects builder options f x [] e i a = absurd i
selects_caller selects builder options f x (y ∷ ys) e i a =
    rw (query_drops_relation_filters selects builder options f y ys e a, e) i

-- Among the texts that the query of a caller's grants selects by, for owners and for recipients, is the condition that the
-- column is the caller's id, whatever filter the request has, where it can be built. The texts are joined by AND without
-- parentheses, so a key of the filter that holds an OR undoes it.
pub listing_is_restricted :
    (selects : List Call → List String) (builder : IsBuilder selects) (column sub : String)
    (request : Query) (options : QueryOptions)
    → IsColumn column
    → query_params (restricted_query column sub request) ≡ ok options
    → (f : Filters) × (options.filters ≡ some f)
      × In (caller_condition column sub) (selects (query_calls options f))
unfolding query_params restricted_query
listing_is_restricted selects builder column sub request options h e =
    elim (Result-cases
      (build_filter (put_entry column (some ("is", sub)) (entries_of request.filter)))) [
        | inr (x, failed) ↦ absurd (ground arith)
        | inl (f, built) ↦ (
          f,
          ground arith,
          selects_caller selects builder options f (caller_condition column sub) f.where_clause refl
              (build_filter_restricted column sub (entries_of request.filter) f h built)
              (build_filter_filled (put_entry column (some ("is", sub)) (entries_of request.filter))
                f built),
        )
      ]
