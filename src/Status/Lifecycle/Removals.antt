-- ===== src/Status/Lifecycle/Removals.antt =====
-- The removals refine the abstract removal of an update.
use core_status.Base.{
  String, ◌≡◌, Bool, ◌&&◌, List, [], ◌∷◌, arith, ◌===◌, ===_iff, change, includes, if◌then◌else◌,
}
use core_status.Data.Entities.{Update}
use core_status.Data.Requests.{DeletedUpdate, SingleUpdateDeleteOptions, MassUpdateDeleteOptions}
use core_status.Effects.{World, Env}
use core_status.Effects.Laws.{IsTable}
use core_status.Data.Errors.{ok}
use core_status.Status.Remove.{is_not_deleted, wipe, remove_status_update, remove_status_updates}
use core_status.Status.Remove.Wiped.{remove_status_update_wipes, remove_status_updates_changes}
use core_status.Status.Lifecycle.{state_of, removed}

-- The rows of a stream whose ids pass a test are wiped: their updates are removed, and no other is.
state_of-change :
    (q : String → Bool) (stream_id : String) (rows : List Update) (s i : String)
    → state_of (change (λ u. q u.id && u.stream_id === stream_id && is_not_deleted u) wipe rows) s i
      ≡ (if q i && s === stream_id then removed (state_of rows s i) else state_of rows s i)
state_of-change q stream_id [] s i = ground arith
state_of-change q stream_id (u ∷ us) s i =
    ground (arith, state_of-change q stream_id us s i, ===_iff u.id i, ===_iff u.stream_id s)

-- A removal of one update that succeeds removes this update and no other.
pub remove_status_update_refines :
    (env : Env) (stream_laws : IsTable env.stream_table) (laws : IsTable env.update_table)
    (owner_id : String) (o : SingleUpdateDeleteOptions) (w w' : World) (d : DeletedUpdate)
    → remove_status_update env owner_id o w ≡ (ok d, w')
    → (stream_id id : String)
    → state_of w'.updates stream_id id ≡ (
        if id === o.id && stream_id === o.stream_id
        then removed (state_of w.updates stream_id id)
        else state_of w.updates stream_id id)
remove_status_update_refines env stream_laws laws owner_id o w w' d h s i =
    rw (remove_status_update_wipes env stream_laws laws owner_id o w w' d h).1
      (state_of-change (λ x. x === o.id) o.stream_id w.updates s i)

-- A removal of several updates of a stream that succeeds removes these updates and no other, whatever their order
-- and however often an id is named.
pub remove_status_updates_refines :
    (env : Env) (stream_laws : IsTable env.stream_table) (laws : IsTable env.update_table)
    (owner_id : String) (o : MassUpdateDeleteOptions) (w w' : World) (ds : List DeletedUpdate)
    → remove_status_updates env owner_id o w ≡ (ok ds, w')
    → (stream_id id : String)
    → state_of w'.updates stream_id id ≡ (
        if includes o.ids id && stream_id === o.stream_id
        then removed (state_of w.updates stream_id id)
        else state_of w.updates stream_id id)
remove_status_updates_refines env stream_laws laws owner_id o w w' ds h s i =
    rw (remove_status_updates_changes env stream_laws laws owner_id o w w' ds h).1
      (state_of-change (includes o.ids) o.stream_id w.updates s i)
