-- ===== src/Query/Builder.antt =====
-- The calls that `BaseService.query` makes of a TypeORM query builder, and what they select.
use core_status.Base.{
  ℕ, zero, suc, ◌≡◌, String, Option, none, some, List, [], ◌∷◌, ◌++◌, ◌===◌, if◌then◌else◌,
}
use core_status.Query.Options.{Filters, QueryOptions}

pub data Call : Type 0 where
  left_join : String → Call
  where_call and_where : String → Call
  skip take : ℕ → Call

-- `index === 0 ? where(condition) : andWhere(condition)`
abbrev pub condition_call : ℕ → String → Call
condition_call zero c = where_call c
condition_call (suc n) c = and_where c

-- the `map` over one list of conditions, from an index on
unfoldable pub condition_calls : ℕ → List String → List Call
condition_calls n [] = []
condition_calls n (c ∷ cs) =
    if c === "" then condition_calls (suc n) cs else condition_call n c ∷ condition_calls (suc n) cs

abbrev join_calls : Option (List String) → List Call
join_calls none = []
join_calls (some []) = []
join_calls (some (r ∷ rs)) = left_join r ∷ join_calls (some rs)

unfoldable pub query_calls : QueryOptions → Filters → List Call
unfolding condition_calls
query_calls options filters =
    join_calls options.relations
    ++ condition_calls 0 filters.filter
    ++ condition_calls 0 filters.where_clause
    ++ skip options.pagination.offset ∷ take options.pagination.limit ∷ []

-- What TypeORM documents of the conditions that a builder selects by, from its calls in order: `where` sets the
-- condition and overrides any before, `andWhere` adds one, and the other calls add none.
pub record IsBuilder (selects : List Call → List String) : Type 0 where
  pub starts : selects [] ≡ []
  pub joins : (cs : List Call) (r : String) → selects (cs ++ left_join r ∷ []) ≡ selects cs
  pub sets : (cs : List Call) (c : String) → selects (cs ++ where_call c ∷ []) ≡ c ∷ []
  pub adds : (cs : List Call) (c : String) → selects (cs ++ and_where c ∷ []) ≡ selects cs ++ c ∷ []
  pub skips : (cs : List Call) (n : ℕ) → selects (cs ++ skip n ∷ []) ≡ selects cs
  pub takes : (cs : List Call) (n : ℕ) → selects (cs ++ take n ∷ []) ≡ selects cs
