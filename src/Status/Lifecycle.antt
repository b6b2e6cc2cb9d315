-- ===== src/Status/Lifecycle.antt =====
-- The life of a status update, as its readers see it: what the appending and removing calls of
-- src/products/services/status.service.ts make of it, whatever order they run in.
pub mod Removals
pub mod Forward
use core_status.Base.{
  ℕ, String, Bool, true, false, ◌&&◌, List, [], ◌∷◌, ◌===◌, ◌≡◌, includes, if◌then◌else◌,
}
use core_status.Data.Entities.{Update}
use core_status.Data.Errors.{Result}
use core_status.Data.Requests.{
  StatusDto, StatusResult, DeletedUpdate, SingleUpdateDeleteOptions, MassUpdateDeleteOptions,
  DeleteStatusDateRangeOptions,
}
use core_status.Effects.{World, Env}
use core_status.Status.Write.{save}
use core_status.Status.Remove.{
  is_not_deleted, remove_status_update, remove_status_updates, remove_status_updates_by_date_range,
}

-- what there is of an update of a stream: nothing yet, the update, or its empty row
pub data UpdateState : Type 0 where
  absent live gone : UpdateState

abbrev pub is_row : String → String → Update → Bool
is_row stream_id id u = u.id === id && u.stream_id === stream_id

abbrev pub row_state : Bool → UpdateState
row_state true = live
row_state false = gone

-- the state of an update by the row with its id and stream
abbrev pub state_of : List Update → String → String → UpdateState
state_of [] stream_id id = absent
state_of (u ∷ us) stream_id id =
    if is_row stream_id id u then row_state (is_not_deleted u) else state_of us stream_id id

-- The abstract removal: a live update is gone, and the rest stays as it is.
abbrev pub removed : UpdateState → UpdateState
removed absent = absent
removed live = gone
removed gone = gone

-- the order in which an update passes through its states
abbrev pub rank : UpdateState → ℕ
rank absent = 0
rank live = 1
rank gone = 2

-- One call of a handler that writes to the table of updates, whatever it returns or throws. `StatusService.delete` is
-- called by no handler, and is none of them.
pub data Step (env : Env) : World → World → Type 0 where
  appends :
      (owner_id : String) (statuses : List StatusDto) (w : World)
      → Step env w (save env owner_id statuses w).1
  removes :
      (owner_id : String) (o : SingleUpdateDeleteOptions) (w : World)
      → Step env w (remove_status_update env owner_id o w).1
  removes_several :
      (owner_id : String) (o : MassUpdateDeleteOptions) (w : World)
      → Step env w (remove_status_updates env owner_id o w).1
  removes_range :
      (owner_id : String) (o : DeleteStatusDateRangeOptions) (w : World)
      → Step env w (remove_status_updates_by_date_range env owner_id o w).1

-- any number of calls, by whoever makes them
pub data Steps (env : Env) (start : World) : World → Type 0 where
  no_step : Steps env start start
  then_step : {v w : World} → Steps env start v → Step env v w → Steps env start w
