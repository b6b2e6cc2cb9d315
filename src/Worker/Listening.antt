-- ===== src/Worker/Listening.antt =====
-- What the handler of re-encryption tasks does by who listens.
use core_status.Base.{
  String, ◌≡◌, refl, ◌≢◌, ◌↔◌, true, Option, none, some, List, [], ◌∷◌, ◌++◌, arith,
}
use Prim.Native.String as Text
use core_status.Data.Errors.{Result, ok, err}
use core_status.Data.Messages.{PreStatusUpdateDto, publish_message}
use core_status.Effects.{World, Env}
use core_status.Cache.{set, build_status_update_key}
use core_status.Pre.{re_encrypt_payload}
use core_status.Worker.{check_listeners, is_listening, pre_message, publish, handle_pre_event}

abbrev pub channel_of : PreStatusUpdateDto → String
channel_of u = Text.◌++◌ "grant_" u.grant_id

handle_pre_event_of :
    (env : Env) (u : PreStatusUpdateDto) (w : World) (asked : Result (Option (List String)))
    → env.here_now (channel_of u) w.history ≡ asked
    → ((handle_pre_event env u w).0 ≢ ok tt) ↔ ((check_listeners env u.grant_id w).0 ≡ ok none)
unfolding handle_pre_event check_listeners
handle_pre_event_of env u w (err e) h = (λ t. ground arith, λ t. ground arith)
handle_pre_event_of env u w (ok none) h = (λ t. ground arith, λ t. ground arith)
handle_pre_event_of env u w (ok (some uuids)) h =
    (λ t. absurd (t (ground arith)), λ t. ground arith)

-- The handler throws, outside its own `try`, exactly when PubNub cannot tell who listens, by a failure or because it
-- does not list the channel.
pub handle_pre_event_throws_iff :
    (env : Env) (u : PreStatusUpdateDto) (w : World)
    → ((handle_pre_event env u w).0 ≢ ok tt) ↔ ((check_listeners env u.grant_id w).0 ≡ ok none)
handle_pre_event_throws_iff env u w =
    handle_pre_event_of env u w (env.here_now (channel_of u) w.history) refl

-- For a recipient who listens, the payload is cached under the recipient, stream and update and then published
-- on the grant's channel, where the re-encryption, Redis and PubNub succeed.
pub handle_pre_event_delivers :
    (env : Env) (u : PreStatusUpdateDto) (w w₁ : World) (uuids : List String) (payload : String)
    (strings : String → Option String)
    → check_listeners env u.grant_id w ≡ (ok (some uuids), w₁)
    → is_listening u.recipient_id uuids ≡ true
    → re_encrypt_payload env (some u.update.payload) u.re_encryption_key ≡ ok payload
    → env.redis_set
        (build_status_update_key u.recipient_id u.update.stream_id u.update.id)
        payload
        w.strings
      ≡ ok strings
    → env.perform (publish_message (channel_of u) (pre_message u payload)) w.history ≡ ok tt
    → handle_pre_event env u w ≡ (
      ok tt,
      record w {
        strings = strings;
        history = w.history ++ publish_message (channel_of u) (pre_message u payload) ∷ [];
      },
    )
unfolding handle_pre_event set publish
handle_pre_event_delivers env u w w₁ uuids payload strings asked there text cached sent =
    ground arith
