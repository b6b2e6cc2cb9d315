-- ===== src/Status/Remove.antt =====
-- Removing status updates: the rows stay, their payload goes (src/products/services/status.service.ts).
pub mod Wiped
use core_status.Base.{
  ℕ, String, Bool, true, false, not, ◌&&◌, Option, none, some, List, [], ◌∷◌, ◌===◌, any_of,
  includes, leb, map, if◌then◌else◌,
}
use core_status.Data.Errors.{Error, Result, ok, err, http}
use core_status.Data.Entities.{Stream, Update, UpdateMarker}
use core_status.Data.Requests.{
  DeletedUpdate, SingleUpdateDeleteOptions, MassUpdateDeleteOptions, DeleteStatusDateRangeOptions,
}
use core_status.Effects.{World, Env, M, pure, throw, ◌>>=◌, ◌>>◌, query, commit, throw_if}
use core_status.Grants.Range.{at_most}
use core_status.Subscribers.{iso_text}

abbrev pub no_streams : List Stream → Bool
no_streams [] = true
no_streams (s ∷ ss) = false

abbrev pub is_owned : String → String → Stream → Bool
is_owned owner_id stream_id s = s.owner_id === owner_id && s.id === stream_id

unfoldable pub check_stream_ownership : Env → String → String → M (Unit {0})
check_stream_ownership env owner_id stream_id = do
  maybe_owned ← query (λ w. env.stream_table.find (is_owned owner_id stream_id) w.streams)
  throw_if (no_streams maybe_owned) (http 403 "stream not owned or not exists")

-- `marker->>'deleted' != 'true'`: SQL's null is not different from 'true'.
abbrev pub is_not_deleted : Update → Bool
is_not_deleted u = elim u.marker.deleted [ none ↦ false | some d ↦ not d ]

-- `set({payload: null, marker: jsonb_set(marker, '{deleted}', 'true', TRUE)})`
abbrev pub wipe : Update → Update
wipe u = record u { payload = none; marker = record (u.marker) { deleted = some true } }

-- the update statement of the three removals: the rows that it touched
unfoldable pub wipe_rows : Env → (Update → Bool) → M (List Update)
wipe_rows env p w =
    commit (env.update_table.update p wipe w.updates) (λ rows. record w { updates = rows }) w

abbrev pub single_target : SingleUpdateDeleteOptions → Update → Bool
single_target o u = u.id === o.id && u.stream_id === o.stream_id && is_not_deleted u

abbrev pub mass_target : MassUpdateDeleteOptions → Update → Bool
mass_target o u = includes o.ids u.id && u.stream_id === o.stream_id && is_not_deleted u

abbrev pub comment_of : Bool → String
comment_of true = "deleted"
comment_of false = "update not found"

-- `queryResult.affected`
abbrev pub any_row : List Update → Bool
any_row [] = false
any_row (u ∷ us) = true

unfoldable pub remove_status_update : Env → String → SingleUpdateDeleteOptions → M DeletedUpdate
unfolding check_stream_ownership wipe_rows
remove_status_update env owner_id o = do
  check_stream_ownership env owner_id o.stream_id
  hit ← wipe_rows env (single_target o)
  pure (record { id = o.id; comment = comment_of (any_row hit) })

-- the answer to a removal of several ids: in their order, by what was affected
unfoldable pub report : List Update → List String → List DeletedUpdate
report hit [] = []
report hit (id ∷ ids) =
    record { id = id; comment = comment_of (any_of (λ u. u.id === id) hit) } ∷ report hit ids

unfoldable pub remove_status_updates :
    Env → String → MassUpdateDeleteOptions → M (List DeletedUpdate)
unfolding check_stream_ownership wipe_rows report
remove_status_updates env owner_id o = do
  check_stream_ownership env owner_id o.stream_id
  hit ← wipe_rows env (mass_target o)
  pure (report hit o.ids)

abbrev pub range_target : String → Option ℕ → Option ℕ → Update → Bool
range_target stream_id from to u =
    u.stream_id === stream_id
    && is_not_deleted u
    && at_most from (some u.recorded_at)
    && at_most (some u.recorded_at) to

abbrev pub deleted_row : Update → DeletedUpdate
deleted_row u = record { id = u.id; comment = "deleted" }

unfoldable pub remove_status_updates_by_date_range :
    Env → String → DeleteStatusDateRangeOptions → M (List DeletedUpdate)
unfolding check_stream_ownership wipe_rows
remove_status_updates_by_date_range env owner_id o = do
  check_stream_ownership env owner_id o.stream_id
  from ← query (λ w. iso_text env o.from)
  to ← query (λ w. iso_text env o.to)
  hit ← wipe_rows env (range_target o.stream_id (env.database_date from) (env.database_date to))
  pure (map deleted_row hit)

-- `delete`, whose argument is named `userId` and compared with the update's id
unfoldable pub delete : Env → String → M (List Update)
delete env user_id w =
    commit (env.update_table.remove (λ u. u.id === user_id) w.updates)
      (λ rows. record w { updates = rows }) w
