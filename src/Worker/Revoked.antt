-- ===== src/Worker/Revoked.antt =====
-- A deleted grant stays in the cache, and the worker goes on forwarding to it.
use core_status.Base.{
  String, ◌≡◌, refl, true, Option, some, List, [], ◌∷◌, arith, In, inl, inr, In-append_left,
  In-append_right,
}
use core_status.Data.Errors.{ok}
use core_status.Data.Json.{Json, str, truthy}
use core_status.Data.Entities.{Grant}
use core_status.Data.Messages.{Effect, StatusUpdateDto, send_pre}
use core_status.Effects.{World, Env, next-eq-ok}
use core_status.Cache.{
  read_value, read_members, built_grants_per_stream_key, built_re_encryption_per_grant_key,
}
use core_status.Grants.Service.{get, delete, delete_grant}
use core_status.Grants.Service.Delete.{get_same}
use core_status.Subscribers.{grant_json}
use core_status.Subscribers.Laws.{remove_from_channel_group-SameTables}
use core_status.Worker.{members_of, pre_update, handle_status_update_event}
use core_status.Worker.Fanout.{Answers, message_for, messages, handle_status_update_event_sends}

delete-SameCache :
    (env : Env) (id owner_id : String) (w w' : World) (g : Grant)
    → delete env id owner_id w ≡ (ok g, w')
    → (w'.strings ≡ w.strings) × (w'.sets ≡ w.sets)
unfolding delete delete_grant
delete-SameCache env id owner_id w w' g h =
    let (old, w₁, got, h₁) = next-eq-ok (get env id owner_id w) _ h in
    let same = get_same env id owner_id w in
    let left = (remove_from_channel_group-SameTables env old w₁).1 in
    let start : w₁ ≡ w = ground arith in (ground arith, ground arith)

In-messages :
    (env : Env) (update : StatusUpdateDto) (strings : String → Option String) (e : Effect)
    (j : Json) (grants : List Json)
    → In j grants
    → In e (message_for env update strings (members_of j))
    → In e (messages env update strings grants)
In-messages env update strings e j [] i k = absurd i
In-messages env update strings e j (x ∷ xs) (inl same) k =
    In-append_left e (message_for env update strings (members_of x)) _ (rw same at k)
In-messages env update strings e j (x ∷ xs) (inr i) k =
    In-append_right e (message_for env update strings (members_of x)) _
      (In-messages env update strings e j xs i k)

-- the message for a grant under a key
abbrev pub forwarded : Env → StatusUpdateDto → Grant → Json → Effect
forwarded env update g key =
    send_pre g.id (pre_update env update (some (str g.id)) (some (str g.recipient_id)) key)

-- A grant that is cached with its key is forwarded to.
pub cached_forwarded :
    (env : Env) (update : StatusUpdateDto) (w : World) (g : Grant)
    → Answers env update w
    → env.redis_smembers (built_grants_per_stream_key update.stream_id) w.sets
      ≡ ok (w.sets (built_grants_per_stream_key update.stream_id))
    → In
        (grant_json env g)
        (read_members env (w.sets (built_grants_per_stream_key update.stream_id)))
    → truthy (read_value env (w.strings (built_re_encryption_per_grant_key g.id))) ≡ true
    → In
        (forwarded env update g
          (read_value env (w.strings (built_re_encryption_per_grant_key g.id))))
        (handle_status_update_event env update w).1.history
cached_forwarded env update w g a e cached key =
    let k : String = built_grants_per_stream_key update.stream_id in
    rw (handle_status_update_event_sends env update w a e) (
      In-append_right _ w.history _ (
        In-messages env update w.strings _ (grant_json env g) (read_members env (w.sets k)) cached
          (rw key (inl refl))))

-- After a grant was deleted, the worker still sends each new status of the stream to its holder, if the grant was in
-- the cache with its key, and Redis and the broker answer.
pub deleted_grant_still_forwarded :
    (env : Env) (id owner_id : String) (update : StatusUpdateDto) (w w' : World) (g : Grant)
    → delete env id owner_id w ≡ (ok g, w')
    → Answers env update w'
    → env.redis_smembers (built_grants_per_stream_key update.stream_id) w'.sets
      ≡ ok (w'.sets (built_grants_per_stream_key update.stream_id))
    → In
        (grant_json env g)
        (read_members env (w.sets (built_grants_per_stream_key update.stream_id)))
    → truthy (read_value env (w.strings (built_re_encryption_per_grant_key g.id))) ≡ true
    → In
        (forwarded env update g
          (read_value env (w.strings (built_re_encryption_per_grant_key g.id))))
        (handle_status_update_event env update w').1.history
deleted_grant_still_forwarded env id owner_id update w w' g h a e cached key =
    let (strings, sets) = delete-SameCache env id owner_id w w' g h in
    rw (← strings) (cached_forwarded env update w' g a e (rw sets cached) (rw strings key))
