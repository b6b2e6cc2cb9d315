-- ===== src/Grants/Range.antt =====
-- `GrantService.checkContinuousRange` (src/products/services/grant.service.ts). lodash's `_.sortBy` and the
-- parser of date texts behind `new Date` are parameters; `none` stands for the `NaN` of a text that is no date.
pub mod Chain
pub mod Coverage
use core_status.Base.{
  ℕ, String, Bool, false, ◌&&◌, Option, none, some, List, [], ◌∷◌, leb, if◌then◌else◌,
}
use core_status.Data.Errors.{Result, ok, err, failure, ◌>>=◌, range_is_not_granted, grant_not_found}
use core_status.Data.Entities.{Grant}
use core_status.Data.Requests.{TimeRangeDto}

-- `continuousRange`, from its start to its end
abbrev pub ContinuousRange : Type 0
ContinuousRange = ℕ × ℕ

-- `a <= b` in JavaScript, where `NaN` compares as false
abbrev pub at_most : Option ℕ → Option ℕ → Bool
at_most (some a) (some b) = leb a b
at_most (some a) none = false
at_most none b = false

abbrev pub gap : Result ContinuousRange
gap = err (failure "" "Range is not granted")

-- one round of the `forEach`, once `continuousRange` is set
unfoldable pub extend : ContinuousRange → Grant → Result ContinuousRange
extend (from, to) grant =
    if leb grant.from_date to
    then (if leb grant.to_date to then ok (from, to) else ok (from, grant.to_date))
    else gap

abbrev pub initial : Option ContinuousRange → Grant → ContinuousRange
initial none grant = (grant.from_date, grant.to_date)
initial (some c) grant = c

-- the `forEach` over the sorted grants
unfoldable pub scan : Option ContinuousRange → List Grant → Result (Option ContinuousRange)
scan c [] = ok c
scan c (grant ∷ grants) = do c' ← extend (initial c grant) grant; scan (some c') grants

-- what follows the loop
unfoldable pub conclude :
    (String → Option ℕ) → TimeRangeDto → Option ContinuousRange → Result (Unit {0})
conclude date range none = err grant_not_found
conclude date range (some (from, to)) =
    if at_most (some from) (date range.from_date) && at_most (date range.to_date) (some to)
    then ok tt
    else err range_is_not_granted

unfoldable pub check_continuous_range :
    (List Grant → List Grant) → (String → Option ℕ) → List Grant → TimeRangeDto → Result (Unit {0})
unfolding scan extend conclude
check_continuous_range sort_by_from_date date grants range = do
  c ← scan none (sort_by_from_date grants)
  conclude date range c
