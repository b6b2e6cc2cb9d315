-- ===== src/Query/Options.antt =====
-- `queryParams` (src/products/repositories/query.options.ts). The keys of a filter are in the order of its object.
-- An operator that is a name of every JavaScript object (`toString`) passes the source's `in` test and is left out here.
use Prim.Native.String.{◌++◌}
use core_status.Base.{ℕ, String, Option, none, some, List, [], ◌∷◌, ◌===◌, map, if◌then◌else◌}
use core_status.Data.Errors.{Result, ok, err, response_exception, ◌>>=◌}
use core_status.Query.Text.{split_comma, split_list, join, has_dot}

pub data Tipe : Type 0 where
  string general range number array : Tipe

-- `mapping`
abbrev mapping : List (String × (String × Tipe))
mapping =
    ("like", ("like", string))
    ∷ ("!like", ("not like", string))
    ∷ ("is", ("=", general))
    ∷ ("!is", ("<>", general))
    ∷ ("between", ("between", range))
    ∷ ("gt", (">", general))
    ∷ ("gte", (">=", number))
    ∷ ("lt", ("<", general))
    ∷ ("lte", ("<=", number))
    ∷ ("in", ("in", array))
    ∷ ("!in", ("not in", array))
    ∷ []

abbrev lookup_operator : String → List (String × (String × Tipe)) → Option (String × Tipe)
lookup_operator op [] = none
lookup_operator op ((k, v) ∷ m) = if k === op then some v else lookup_operator op m

abbrev shown : Option String → String
shown none = "undefined"
shown (some op) = op

abbrev supported : Option String → Option (String × Tipe) → Result (String × Tipe)
supported op (some v) = ok v
supported op none = err (
    response_exception ("Filter operator " ++ shown op ++ " is not supported") "BadQueryParameter"
      400)

-- `operator || '='`, where a missing or empty operator gives '=', which is not in the table
abbrev pub operator_or_equals : Option String → String
operator_or_equals none = "="
operator_or_equals (some op) = if op === "" then "=" else op

unfoldable pub map_operator : Option String → Result (String × Tipe)
map_operator op = supported op (lookup_operator (operator_or_equals op) mapping)

abbrev pub quoted : String → String
quoted value = "'" ++ value ++ "'"

unfoldable pub build_range_values : String → String
unfolding split_list join
build_range_values criteria = join " and " (map quoted (split_list "" criteria))

unfoldable pub build_array_value : String → String
unfolding split_list join
build_array_value criteria = "(" ++ join ", " (map quoted (split_list "" criteria)) ++ ")"

unfoldable pub map_criteria : Tipe → String → String
unfolding build_range_values build_array_value
map_criteria range criteria = build_range_values criteria
map_criteria string criteria = quoted criteria
map_criteria general criteria = quoted criteria
map_criteria number criteria = criteria
map_criteria array criteria = build_array_value criteria

-- One key of the filter: its first operator and criteria, if it has one.
abbrev pub Entry : Type 0
Entry = String × Option (String × String)

abbrev pub operator_of : Option (String × String) → Option String
operator_of none = none
operator_of (some (op, criteria)) = some op

abbrev pub criteria_of : Option (String × String) → String
criteria_of none = "undefined"
criteria_of (some (op, criteria)) = criteria

-- `[fields, operator, criteria].join(" ")`: the fields, joined by commas again, are the key.
abbrev pub condition_of : String → String × Tipe → String → String
condition_of key (operator, tipe) criteria =
    key ++ " " ++ operator ++ " " ++ map_criteria tipe criteria

-- `fields.map(field => list.push(condition))`
abbrev pub push_each : List String → String → List String → List String
push_each [] condition list = list
push_each (f ∷ fs) condition list = condition ∷ push_each fs condition list

pub record Filters : Type 0 where
  pub filter : List String
  pub where_clause : List String

abbrev pub place : String → String → Filters → Filters
place key condition f =
    if has_dot key
    then record f { filter = push_each (split_comma "" key) condition f.filter }
    else record f { where_clause = push_each (split_comma "" key) condition f.where_clause }

-- `buildFilter`, whose lists hold the conditions in the order of the keys
unfoldable pub build_filter : List Entry → Result Filters
unfolding map_operator
build_filter [] = ok (record { filter = []; where_clause = [] })
build_filter ((key, value) ∷ entries) = do
  operator ← map_operator (operator_of value)
  rest ← build_filter entries
  ok (place key (condition_of key operator (criteria_of value)) rest)

pub record Pagination : Type 0 where
  pub offset : ℕ
  pub limit : ℕ

pub record QueryOptions : Type 0 where
  pub relations : Option (List String)
  pub filters : Option Filters
  pub pagination : Pagination

-- the query of a request: `include`, `filter` and `page`
pub record Query : Type 0 where
  pub include : Option String
  pub filter : Option (List Entry)
  pub page : Option Pagination

abbrev relations_of : Option String → Option (List String)
relations_of none = none
relations_of (some text) = if text === "" then none else some (split_comma "" text)

abbrev filters_of : Option (List Entry) → Result (Option Filters)
filters_of none = ok none
filters_of (some entries) = do f ← build_filter entries; ok (some f)

abbrev page_of : Option Pagination → Pagination
page_of none = record { offset = 0; limit = 0 }
page_of (some p) = p

unfoldable pub query_params : Query → Result QueryOptions
unfolding build_filter
query_params query = do
  filters ← filters_of query.filter
  ok (record {
    relations = relations_of query.include;
    filters = filters;
    pagination = page_of query.page;
  })
