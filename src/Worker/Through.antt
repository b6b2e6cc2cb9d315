-- ===== src/Worker/Through.antt =====
-- The whole way of a status: from its owner's encryption, by the owner's grant, the worker's two handlers and the
-- cache, to what the holder of the grant decrypts.
use mathlib.Core.Path.{subst}
use core_status.Base.{
  ℕ, String, ◌≡◌, ◌≢◌, ◌≤◌, refl, ap, ◌∙◌, ===_iff, le→leb, true, none, some, List, In, arith,
}
use core_status.Data.Errors.{ok}
use core_status.Data.Json.{str, truthy}
use core_status.Data.Entities.{Grant, GrantProperties, Update}
use core_status.Data.Requests.{GrantDto, TimeRangeDto}
use core_status.Data.Messages.{Effect, StatusUpdateDto, PreStatusUpdateDto, send_pre}
use core_status.Effects.{World, Env, Strings, Sets}
use core_status.Effects.Laws.{IsRedis, IsTable}
use core_status.Cache.{read_value, built_grants_per_stream_key, build_status_update_key}
use core_status.Cache.Members.{AllParse}
use core_status.Grants.Service.{save}
use core_status.Pre.Ends.{Lockboxes, encrypt_payload, decrypt_payload}
use core_status.Pre.Reading.{ReadsBack, Carries, ReEncryptsFor, reader_decrypts}
use core_status.Status.Read.{Served, get_user_status_by_stream_id}
use core_status.Status.Read.Complete.{FindsAll}
use core_status.Status.Read.Cached.{cached_is_answered}
use core_status.Worker.{
  pre_update, handle_status_update_event, handle_pre_event, check_listeners, is_listening,
}
use core_status.Worker.Listening.{handle_pre_event_delivers}
use core_status.Worker.Pipeline.{saved_grant_forwarded}

-- Redis, PubNub and the broker answer every call.
pub record AllAnswer (env : Env) : Type 0 where
  pub get : (key : String) (m : Strings) → env.redis_get key m ≡ ok (m key)
  pub set :
      (key value : String) (m : Strings) → (m' : Strings) × (env.redis_set key value m ≡ ok m')
  pub smembers : (key : String) (m : Sets) → env.redis_smembers key m ≡ ok (m key)
  pub perform : (e : Effect) (h : List Effect) → env.perform e h ≡ ok tt

-- the task that the worker makes of a status for a grant
abbrev pub task_for : Env → StatusUpdateDto → Grant → GrantProperties → PreStatusUpdateDto
task_for env update g p =
    pre_update env update (some (str g.id)) (some (str g.recipient_id)) (str p.re_encryption_key)

-- The answer has the row with a text that the reader's key opens to the plain payload.
abbrev pub Opens :
    {Buffer : Type 0} → Env → Lockboxes Buffer → String → String → Update → List Served → Type 0
Opens env boxes private_key plain row served =
    (text : String) × In (record { update = row; payload = str text }) served
    × (decrypt_payload env boxes (some text) private_key ≡ ok plain)

module _ {Buffer : Type 0} (env : Env) (laws : IsRedis env) (answers : AllAnswer env)
    (reads : ReadsBack env) (boxes : Lockboxes Buffer) (carries : Carries boxes)
    (grant_laws : IsTable env.grant_table) (finds_all : FindsAll env)
    (public_key private_key plain : String) where
  -- what a text in the cache is read as, if it is not empty and no JSON
  text_is_read :
      (text : String)
      → env.json_parse text ≡ none
      → text ≢ ""
      → (read_value env (some text) ≡ str text) × (truthy (read_value env (some text)) ≡ true)
  unfolding read_value
  text_is_read text no_json filled =
      let is : read_value env (some text) ≡ str text = ground arith in
      (is, ap truthy is ∙ ground (arith, ===_iff text ""))

  -- A delivered status is in the answer to its recipient's request.
  delivered_read :
      (u : PreStatusUpdateDto) (v v₁ v₂ : World) (uuids : List String) (range : TimeRangeDto)
      (lo hi : ℕ) (served : List Served) (row : Update)
      (rekeys : ReEncryptsFor env boxes public_key u.re_encryption_key private_key)
      → u.update.payload ≡ encrypt_payload env boxes plain public_key
      → check_listeners env u.grant_id v ≡ (ok (some uuids), v₁)
      → is_listening u.recipient_id uuids ≡ true
      → row.id ≡ u.update.id
      → row.stream_id ≡ u.update.stream_id
      → In row v.updates
      → env.database_date range.from_date ≡ some lo
      → env.database_date range.to_date ≡ some hi
      → lo ≤ row.recorded_at
      → row.recorded_at ≤ hi
      → get_user_status_by_stream_id env u.recipient_id u.update.stream_id range
          (handle_pre_event env u v).1
        ≡ (ok served, v₂)
      → Opens env boxes private_key plain row served
  delivered_read u v v₁ v₂ uuids range lo hi served row rekeys given asked there same of_stream kept
        from to a b answered =
      let (text, made, opened, filled, no_json) =
        reader_decrypts env reads boxes carries public_key u.re_encryption_key private_key plain
          rekeys in
      let key = build_status_update_key u.recipient_id u.update.stream_id u.update.id in
      let (strings, written) = answers.set key text v.strings in
      let (is, is_filled) = text_is_read text no_json filled in
      let delivered =
        handle_pre_event_delivers env u v v₁ uuids text strings asked there (rw given made) written
          (answers.perform _ _) in
      let stored : strings key ≡ some text =
        laws.set_writes key text v.strings strings written key
        ∙ rw ((===_iff key key).1 refl) refl in
      let found =
        cached_is_answered env laws u.recipient_id u.update.stream_id text is_filled grant_laws
          finds_all range (handle_pre_event env u v).1 v₂ served row (rw delivered kept)
          (ground (
            arith,
            ===_iff row.stream_id u.update.stream_id,
            le→leb lo row.recorded_at a,
            le→leb row.recorded_at hi b,
          ))
          (rw (delivered, same) stored) answered in
      (text, subst (λ j. In (record { update = row; payload = j }) served) is found, opened)

  -- Once a grant is saved whose key re-encrypts for its recipient, each new status of its stream that its owner has
  -- encrypted is put on the queue as a task for the recipient. Whenever the worker takes this task from the queue while
  -- the recipient listens, then each request of the recipient that follows and succeeds, for a range of the stream around
  -- the time of the status' row, is answered with the row under a text that the recipient's key opens to what the
  -- owner had encrypted. Redis, PubNub and the broker answer, each grant that is cached for the stream is JSON, and the
  -- key is a text that is not empty and no JSON.
  pub granted_reader-Opens :
      (uuid : String) (dto : GrantDto) (scopes : List String) (w w' v v₁ v₂ : World) (g : Grant)
      (p : GrantProperties) (update : StatusUpdateDto) (uuids : List String) (range : TimeRangeDto)
      (lo hi : ℕ) (served : List Served) (row : Update)
      (rekeys : ReEncryptsFor env boxes public_key p.re_encryption_key private_key)
      → save env uuid dto scopes w ≡ (ok g, w')
      → g.properties ≡ some p
      → update.stream_id ≡ g.stream_id
      → update.payload ≡ encrypt_payload env boxes plain public_key
      → p.re_encryption_key ≢ ""
      → env.json_parse p.re_encryption_key ≡ none
      → AllParse env (w'.sets (built_grants_per_stream_key update.stream_id))
      → check_listeners env g.id v ≡ (ok (some uuids), v₁)
      → is_listening g.recipient_id uuids ≡ true
      → row.id ≡ update.id
      → row.stream_id ≡ update.stream_id
      → In row v.updates
      → env.database_date range.from_date ≡ some lo
      → env.database_date range.to_date ≡ some hi
      → lo ≤ row.recorded_at
      → row.recorded_at ≤ hi
      → get_user_status_by_stream_id env g.recipient_id update.stream_id range
          (handle_pre_event env (task_for env update g p) v).1
        ≡ (ok served, v₂)
      → In
          (send_pre g.id (task_for env update g p))
          (handle_status_update_event env update w').1.history
        × Opens env boxes private_key plain row served
  granted_reader-Opens uuid dto scopes w w' v v₁ v₂ g p update uuids range lo hi served row rekeys
        saved has of_stream given filled text all asked there same of_row kept from to a b
        answered =
      (
        saved_grant_forwarded env laws uuid dto scopes w w' g p update saved has of_stream filled
            text (reads.json _) all ((λ key. answers.get key w'.strings), answers.perform)
            (answers.smembers _ w'.sets),
        delivered_read (task_for env update g p) v v₁ v₂ uuids range lo hi served row rekeys given
            asked there same of_row kept from to a b answered,
      )
