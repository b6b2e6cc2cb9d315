-- ===== src/Status/Write.antt =====
-- Appending status updates: `save` (src/products/services/status.service.ts).
pub mod Checked
pub mod Served
use core_status.Base.{
  ℕ, String, Bool, true, false, not, Option, none, some, List, [], ◌∷◌, ◌===◌, any_of,
  if◌then◌else◌,
}
use core_status.Data.Errors.{Error, Result, ok, err, bad_request, internal_server_error, error_code}
use core_status.Data.Entities.{Stream, Update, UpdateMarker}
use core_status.Data.Requests.{
  StatusDto, StatusRow, StatusResult, stored, already_exists, UpdateMarkerCreateDto,
}
use core_status.Effects.{World, Env, M, pure, throw, ◌>>=◌, ◌>>◌, catch, query, commit}
use core_status.Streams.{pg_unique_constraint_violation, get_streams_of}
use core_status.Subscribers.{push_to_worker}

-- `Object.assign({}, markerDefault, status.marker)`
abbrev pub full_marker : UpdateMarkerCreateDto → UpdateMarker
full_marker m = record {
  started = m.started;
  stopped = m.stopped;
  frequency = m.frequency;
  deleted = some false;
}

abbrev pub row_of : String → StatusDto → StatusRow
row_of owner_id status = record {
  status = status;
  user_id = owner_id;
  marker = full_marker status.marker;
}

-- `userStreamsMapping[stream_id]`
abbrev pub is_mapped : List Stream → StatusDto → Bool
is_mapped streams status = any_of (λ s. s.id === status.stream_id) streams

-- the `forEach` over the statuses, before anything is written
unfoldable pub check_streams : List Stream → List StatusDto → Result (Unit {0})
check_streams streams [] = ok tt
check_streams streams (s ∷ ss) =
    if not (is_mapped streams s)
    then err (bad_request "stream does not exist")
    else check_streams streams ss

-- the insert of one row, with its subscriber, which runs after the row is written
unfoldable pub insert_status : Env → StatusRow → M StatusResult
insert_status env row = do
  update ←
      λ w. commit (env.update_table.insert row w.updates) (λ rows. record w { updates = rows }) w
  push_to_worker env row
  pure (stored row update.uploaded_at)

-- the `catch` of the loop
unfoldable pub insert_failed : Error → M StatusResult
insert_failed e =
    if error_code e === pg_unique_constraint_violation
    then pure already_exists
    else throw internal_server_error

unfoldable pub save_all : Env → String → List StatusDto → M (List StatusResult)
unfolding insert_status insert_failed
save_all env owner_id [] = pure []
save_all env owner_id (s ∷ ss) = do
  r ← catch (insert_status env (row_of owner_id s)) insert_failed
  rs ← save_all env owner_id ss
  pure (r ∷ rs)

unfoldable pub save : Env → String → List StatusDto → M (List StatusResult)
unfolding check_streams save_all get_streams_of
save env owner_id statuses = do
  streams ← get_streams_of env owner_id
  query (λ w. check_streams streams statuses)
  save_all env owner_id statuses
