-- ===== src/Subscribers.antt =====
-- What a new or removed grant does to the channel groups, and a new status to the worker's queue
-- (src/products/services/subscribers.service.ts, src/products/subscribers/*.ts, src/products/rabbit/status.publisher.ts).
-- Log lines are not modelled.
pub mod Laws
use Prim.Native.String.{◌++◌}
use core_status.Base.{
  ℕ, String, Bool, true, false, not, Option, none, some, List, [], ◌∷◌, ◌===◌, if◌then◌else◌,
}
use core_status.Data.Errors.{
  Error, Result, ok, err, channel_group_addition_error, channel_group_removal_error,
  push_notification_sending_error, type_error, failure,
}
use core_status.Data.Json.{Json, Fields, str, num, obj, end, field, null}
use core_status.Data.Entities.{
  Grant, GrantType, range, all, latest, GrantProperties, Stream, Update, is_grant_type,
}
use core_status.Data.Requests.{StatusRow}
use core_status.Data.Messages.{PubnubNotification, StatusUpdateDto, send_status}
use core_status.Effects.{World, Env, M, pure, throw, ◌>>=◌, ◌>>◌, catch, query, call}
use core_status.Cache.{built_re_encryption_per_grant_key, built_grants_per_stream_key, set, sadd}
use core_status.Pubnub.{
  add_channels_to_pubnub_channel_group, remove_channels_from_pubnub_channel_group,
  subscribe_to_channel, unsubscribe_from_channel, pubnub_publish,
}

-- `CHANNEL_PREFIX + id`
unfoldable pub channel_name : String → String
channel_name id = "grant_" ++ id

unfoldable pub channel_group : Stream → Grant → String
channel_group stream update = stream.type ++ "_" ++ update.recipient_id

unfoldable pub find_stream : Env → String → M (Option Stream)
find_stream env id = query (λ w. env.stream_table.find_one (λ s. s.id === id) w.streams)

unfoldable pub join_channel : Env → Stream → Grant → M (Unit {0})
unfolding channel_name channel_group
join_channel env stream update = do
  subscribe_to_channel env (channel_name update.id ∷ [])
  add_channels_to_pubnub_channel_group env (channel_name update.id ∷ [])
      (channel_group stream update)

unfoldable pub announce : Env → PubnubNotification → Grant → M (Unit {0})
unfolding channel_name
announce env notification update =
    if is_grant_type update.type latest
    then pubnub_publish env (channel_name update.id) notification
    else pure tt

unfoldable pub push_grant_to_channel_group : Env → PubnubNotification → Grant → M (Unit {0})
unfolding find_stream
push_grant_to_channel_group env notification update = do
  stream ← find_stream env update.stream_id
  elim stream [
    | none ↦ pure tt
    | some s ↦ do
      catch (join_channel env s update) (λ e. throw channel_group_addition_error)
      catch (announce env notification update) (λ e. throw push_notification_sending_error)
  ]

unfoldable pub leave_channel : Env → Stream → Grant → M (Unit {0})
unfolding channel_name channel_group
leave_channel env stream update = do
  unsubscribe_from_channel env (channel_name update.id ∷ [])
  remove_channels_from_pubnub_channel_group env (channel_name update.id ∷ [])
      (channel_group stream update)

unfoldable pub remove_from_channel_group : Env → Grant → M (Unit {0})
unfolding find_stream
remove_from_channel_group env update = do
  stream ← find_stream env update.stream_id
  elim stream [
    | none ↦ pure tt
    | some s ↦ catch (leave_channel env s update) (λ e. throw channel_group_removal_error)
  ]

-- `new Date(text).toISOString()`, which throws at a text that is no date
unfoldable pub iso_text : Env → String → Result String
iso_text env text = elim (env.date text) [
  | none ↦ err (failure "" "Invalid time value")
  | some t ↦ ok (env.iso t)
]

-- `pushToWorker` and `publishStatusUpdate`: a new row is sent on under its stream and id. (`UpdateSubscriber.afterInsert`
-- does this and nothing else.)
unfoldable pub push_to_worker : Env → StatusRow → M (Unit {0})
unfolding iso_text
push_to_worker env row = do
  recorded_at ← query (λ w. iso_text env row.status.recorded_at)
  call env (
      send_status ("status.user." ++ row.status.stream_id ++ "." ++ row.status.id) (record {
        id = row.status.id;
        stream_id = row.status.stream_id;
        user_id = row.user_id;
        recorded_at = recorded_at;
        payload = row.status.payload;
      }))

-- `JSON.stringify` of a grant reads its columns.
abbrev type_text : GrantType → String
type_text range = "range"
type_text all = "all"
type_text latest = "latest"

abbrev properties_json : Option GrantProperties → Json
properties_json none = null
properties_json (some p) =
    obj (field "reEncryptionKey" (str p.re_encryption_key) (field "e2eKey" (str p.e2e_key) end))

abbrev pub grant_json : Env → Grant → Json
grant_json env g = obj (
    field "id" (str g.id) (
      field "type" (str (type_text g.type)) (
        field "properties" (properties_json g.properties) (
          field "recipient_id" (str g.recipient_id) (
            field "owner_id" (str g.owner_id) (
              field "fromDate" (str (env.iso g.from_date)) (
                field "toDate" (str (env.iso g.to_date))
                  (field "stream_id" (str g.stream_id) end))))))))

-- the notification that `afterInsert` builds by the setters
abbrev pub grant_notification : Grant → PubnubNotification
grant_notification entity = record {
  title = "Receive notification from GrantEntity";
  message = "Somebody shared his location with you.";
  domain = "devices";
  type = "Shared";
  from = entity.id;
  targets = entity.owner_id ∷ [];
  payload = entity;
  stream_id = entity.stream_id;
}

-- `properties.reEncryptionKey`
abbrev pub re_encryption_key_of : Grant → M Json
re_encryption_key_of entity = elim entity.properties [
  | none ↦ throw type_error
  | some p ↦ pure (str p.re_encryption_key)
]

-- `GrantSubscriber.afterInsert`
unfoldable pub after_insert : Env → Grant → M (Unit {0})
after_insert env entity = do
  sadd env (built_grants_per_stream_key entity.stream_id)
      (env.json_stringify (grant_json env entity))
  key ← re_encryption_key_of entity
  set env (built_re_encryption_per_grant_key entity.id) key
  push_grant_to_channel_group env (grant_notification entity) entity
