-- ===== src/Worker.antt =====
-- The worker (worker/src): it sends each new status on to the holders of grants, re-encrypted for them.
pub mod Fanout
pub mod Revoked
pub mod Listening
pub mod Pipeline
pub mod Through
pub mod Turns
use Prim.Native.String.{◌++◌}
use core_status.Base.{
  ℕ, String, Bool, true, false, not, Option, none, some, List, [], ◌∷◌, ◌===◌, if◌then◌else◌,
}
use core_status.Data.Errors.{Error, Result, ok, err, type_error}
use core_status.Data.Json.{Json, null, bool, num, str, arr, obj, get_field, truthy}
use core_status.Data.Messages.{
  StatusUpdateDto, PreStatusUpdateDto, PreMessage, send_pre, publish_message,
}
use core_status.Effects.{World, Env, M, pure, throw, ◌>>=◌, ◌>>◌, catch, query, call}
use core_status.Cache.{
  built_grants_per_stream_key, built_re_encryption_per_grant_key, build_status_update_key, get, set,
  smembers,
}
use core_status.Pre.{re_encrypt_payload}

-- A value in a template text. (Arrays and objects do not occur as ids; their text is not modelled.)
abbrev pub text_of : Env → Option Json → String
text_of env none = "undefined"
text_of env (some (str s)) = s
text_of env (some j) = env.json_stringify j

-- `const {id, recipient_id} = grant`, which throws at null
abbrev pub members_of : Json → Result (Option Json × Option Json)
members_of null = err type_error
members_of grant = ok (get_field "id" grant, get_field "recipient_id" grant)

-- `publishPREStatusUpdate`; the key is also sent as the message's headers.
unfoldable pub publish_pre_status_update : Env → String → PreStatusUpdateDto → M (Unit {0})
publish_pre_status_update env routing_key payload = call env (send_pre routing_key payload)

abbrev pub pre_update :
    Env → StatusUpdateDto → Option Json → Option Json → Json → PreStatusUpdateDto
pre_update env update id recipient_id key = record {
  update = update;
  recipient_id = text_of env recipient_id;
  grant_id = text_of env id;
  re_encryption_key = text_of env (some key);
}

-- the body of the `map` over the grants, inside its `try`
unfoldable pub forward : Env → StatusUpdateDto → Json → M (Unit {0})
unfolding publish_pre_status_update
forward env update grant = do
  members ← query (λ w. members_of grant)
  key ← get env (built_re_encryption_per_grant_key (text_of env members.0))
  if truthy key
      then publish_pre_status_update env (text_of env members.0)
          (pre_update env update members.0 members.1 key)
      else pure tt

-- `Promise.allSettled` over calls whose errors are caught, one after the other
unfoldable pub forward_all : Env → StatusUpdateDto → List Json → M (Unit {0})
unfolding forward
forward_all env update [] = pure tt
forward_all env update (grant ∷ grants) = do
  catch (forward env update grant) (λ e. pure tt)
  forward_all env update grants

-- `GrantSubscriber.handleStatusUpdateEvent` of the worker
unfoldable pub handle_status_update_event : Env → StatusUpdateDto → M (Unit {0})
unfolding forward_all
handle_status_update_event env update =
    catch (smembers env (built_grants_per_stream_key update.stream_id) >>= forward_all env update)
      (λ e. pure tt)

-- `PubnubService.publish`: a failure is logged and dropped.
unfoldable pub publish : Env → String → PreMessage → M (Unit {0})
publish env grant_id message =
    catch (call env (publish_message ("grant_" ++ grant_id) message)) (λ e. pure tt)

-- `PubnubService.checkListeners`: the occupants, or `undefined` where the call fails or lists no such channel
unfoldable pub check_listeners : Env → String → M (Option (List String))
check_listeners env grant_id =
    catch (query (λ w. env.here_now ("grant_" ++ grant_id) w.history)) (λ e. pure none)

abbrev pub is_listening : String → List String → Bool
is_listening recipient_id [] = false
is_listening recipient_id (uuid ∷ uuids) =
    if uuid === recipient_id then true else is_listening recipient_id uuids

-- `occupants.some(…)`, which throws at `undefined`
abbrev pub listens : String → Option (List String) → Result Bool
listens recipient_id none = err type_error
listens recipient_id (some uuids) = ok (is_listening recipient_id uuids)

abbrev pub pre_message : PreStatusUpdateDto → String → PreMessage
pre_message u payload = record {
  id = u.update.id;
  stream_id = u.update.stream_id;
  recorded_at = u.update.recorded_at;
  recipient_id = u.recipient_id;
  reencrypted_payload = payload;
}

-- the `try` of `handlePREEvent`
unfoldable pub deliver : Env → PreStatusUpdateDto → M (Unit {0})
unfolding publish
deliver env u = do
  payload ← query (λ w. re_encrypt_payload env (some u.update.payload) u.re_encryption_key)
  set env (build_status_update_key u.recipient_id u.update.stream_id u.update.id) (str payload)
  publish env u.grant_id (pre_message u payload)

-- `PreSubscriber.handlePREEvent`
unfoldable pub handle_pre_event : Env → PreStatusUpdateDto → M (Unit {0})
unfolding check_listeners deliver
handle_pre_event env u = do
  occupants ← check_listeners env u.grant_id
  listening ← query (λ w. listens u.recipient_id occupants)
  if not listening then pure tt else catch (deliver env u) (λ e. pure tt)
