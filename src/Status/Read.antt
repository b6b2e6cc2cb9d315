-- ===== src/Status/Read.antt =====
-- Reading status updates: `getUserStatuses`, `filterStatusRange` and `getUserStatusByStreamId`
-- (src/products/services/status.service.ts). `Promise.all` is modelled as one call after the other.
pub mod Granted
pub mod Stale
pub mod Revoked
pub mod Complete
pub mod Succeeds
pub mod Blocked
pub mod Cached
pub mod Turns
use core_status.Base.{
  ℕ, String, Bool, true, false, not, ◌&&◌, Option, none, some, List, [], ◌∷◌, ◌===◌, ◌==◌, any_of,
  find, leb, if◌then◌else◌,
}
use core_status.Data.Errors.{Result, ok, err, type_error}
use core_status.Data.Json.{Json, str, truthy}
use core_status.Data.Entities.{Grant, GrantProperties, Stream, Update}
use core_status.Data.Requests.{GetUserStatusesParams, TimeRangeDto}
use core_status.Effects.{World, Env, M, pure, throw, ◌>>=◌, ◌>>◌, query, map_calls}
use core_status.Pre.{re_encrypt_payload}
use core_status.Grants.Range.{at_most, check_continuous_range}
use core_status.Grants.Service.{get_by_range}
use core_status.Cache.{build_status_update_key, get, set}

-- the condition `stream: {owner_id}`, through the update's stream
abbrev pub is_of_owner : String → List Stream → Update → Bool
is_of_owner owner_id streams u =
    any_of (λ s. s.id === u.stream_id && s.owner_id === owner_id) streams

-- `if (from && to)`: a missing bound, or one of 0, turns the filter off.
abbrev pub in_bounds : Option ℕ → Option ℕ → ℕ → Bool
in_bounds none to t = true
in_bounds (some from) none t = true
in_bounds (some from) (some to) t =
    if from == 0 then true else if to == 0 then true else leb from t && leb t to

unfoldable pub filter_status_range :
    Env → GetUserStatusesParams → (List Stream → Update → Bool) → M (List Update)
filter_status_range env options condition = query (λ w.
    env.find_updates_by_upload
      (λ u. condition w.streams u && in_bounds options.from options.to u.recorded_at) w.updates)

unfoldable pub get_user_statuses : Env → String → GetUserStatusesParams → M (List Update)
unfolding filter_status_range
get_user_statuses env owner_id options = filter_status_range env options (is_of_owner owner_id)

-- An update as it is returned, with the payload that replaces its own.
pub record Served : Type 0 where
  pub update : Update
  pub payload : Json

-- the test of `grants.find`
abbrev pub grant_covers : ℕ → Grant → Bool
grant_covers t g = leb g.from_date t && leb t g.to_date

-- `const {properties} = grant`, and its key, where a missing grant or properties is a `TypeError`
abbrev pub key_of : Option Grant → Result String
key_of none = err type_error
key_of (some g) = elim g.properties [ none ↦ err type_error | some p ↦ ok p.re_encryption_key ]

-- The payload is re-encrypted under the grant's key and cached.
unfoldable pub re_encrypt_and_cache : Env → List Grant → String → Update → M Served
re_encrypt_and_cache env grants key update = do
  re_encryption_key ← query (λ w. key_of (find (grant_covers update.recorded_at) grants))
  payload ← query (λ w. re_encrypt_payload env update.payload re_encryption_key)
  set env key (str payload)
  pure (record { update = update; payload = str payload })

-- one update of the answer: from the cache if it is there
unfoldable pub serve : Env → String → String → List Grant → Update → M Served
unfolding re_encrypt_and_cache
serve env recipient_id stream_id grants update = do
  cached ← get env (build_status_update_key recipient_id stream_id update.id)
  if truthy cached
      then pure (record { update = update; payload = cached })
      else re_encrypt_and_cache env grants
          (build_status_update_key recipient_id stream_id update.id) update

-- the `where` of the updates
abbrev pub in_range : Env → String → TimeRangeDto → Update → Bool
in_range env stream_id range u =
    u.stream_id === stream_id
    && at_most (env.database_date range.from_date) (some u.recorded_at)
    && at_most (some u.recorded_at) (env.database_date range.to_date)

unfoldable pub get_user_status_by_stream_id : Env → String → String → TimeRangeDto → M (List Served)
unfolding serve
get_user_status_by_stream_id env recipient_id stream_id range = do
  grants ← get_by_range env recipient_id stream_id range
  query (λ w. check_continuous_range env.sort_by_from_date env.date grants range)
  updates ← query (λ w. env.find_updates_by_upload (in_range env stream_id range) w.updates)
  map_calls (serve env recipient_id stream_id grants) updates
