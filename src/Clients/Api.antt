-- ===== src/Clients/Api.antt =====
-- `ApiService` (src/products/services/api.ts), with the services and handlers that pass calls on to it
-- (src/products/services/message.ts, block.ts, src/products/controllers/channel.controller.ts). Its token is set by
-- `createChannel` alone.
use core_status.Base.{ℕ, String, some, List, not}
use core_status.Data.Errors.{ok, bad_request}
use core_status.Data.Json.{Json}
use core_status.Data.Messages.{HttpRequest}
use core_status.Publishers.{publish_channel_update}
use core_status.Effects.{Env, M, pure, ◌>>=◌, ◌>>◌, throw_if}
use core_status.Clients.Bodies.{AddChannelBody, Checks, accepts_channel, channel_json}
use core_status.Clients.Messages.{MessagePayload}
use core_status.Clients.{exchange}
use core_status.Clients.Requests as Requests

-- a call of the client, under the token that the service holds
unfoldable pub fetch : Env → HttpRequest → M Json
unfolding exchange
fetch env request = exchange env (λ w. w.api_token) request

abbrev pub hold_token : String → M (Unit {0})
hold_token token w = (ok tt, record w { api_token = some token })

unfoldable pub create_channel : Env → String → AddChannelBody → M Json
unfolding fetch
create_channel env token payload = do
  hold_token token
  result ← fetch env (Requests.create_channel env payload)
  publish_channel_update env (channel_json payload)
  pure result

unfoldable pub get_channels : Env → ℕ → ℕ → M Json
get_channels env page per_page = fetch env (Requests.get_channels env page per_page)

unfoldable pub get_subscriptions : Env → ℕ → M Json
get_subscriptions env page = fetch env (Requests.get_subscriptions env page)

unfoldable pub search_channels : Env → List String → M Json
search_channels env participants = fetch env (Requests.search_channels env participants)

unfoldable pub get_counters : Env → ℕ → ℕ → M Json
get_counters env page per_page = fetch env (Requests.get_counters env page per_page)

-- `MessageService`
unfoldable pub get_messages : Env → String → ℕ → ℕ → M Json
get_messages env channel_id page per_page =
    fetch env (Requests.get_messages env channel_id page per_page)

unfoldable pub send_message : Env → MessagePayload → M Json
send_message env payload = fetch env (Requests.send_message env payload)

unfoldable pub set_message_delivered : Env → String → M Json
set_message_delivered env message_id = fetch env (Requests.set_message_delivered env message_id)

unfoldable pub set_message_seen : Env → String → M Json
set_message_seen env message_id = fetch env (Requests.set_message_seen env message_id)

-- `BlockService`
unfoldable pub get_user_blocks : Env → M Json
get_user_blocks env = fetch env (Requests.get_user_blocks env)

unfoldable pub get_blocked_user : Env → String → M Json
get_blocked_user env user_id = fetch env (Requests.get_blocked_user env user_id)

unfoldable pub block_user : Env → String → M Json
block_user env user_id = fetch env (Requests.block_user env user_id)

unfoldable pub unblock_user : Env → String → M (Unit {0})
unblock_user env user_id = fetch env (Requests.unblock_user env user_id) >>= λ answer. pure tt

-- The handlers of `ChannelController`: a body that the validation refuses is answered with 400, and the two listings drop
-- the answer.
unfoldable pub handle_create_channel : Env → Checks → String → AddChannelBody → M Json
unfolding create_channel
handle_create_channel env checks authorization channel =
    throw_if (not (accepts_channel checks channel)) (bad_request "Bad Request Exception")
    >> create_channel env authorization channel

unfoldable pub handle_get_channels : Env → ℕ → ℕ → M (Unit {0})
handle_get_channels env page per_page = get_channels env page per_page >>= λ answer. pure tt

unfoldable pub handle_get_channel_counter : Env → ℕ → ℕ → M (Unit {0})
handle_get_channel_counter env page per_page = get_counters env page per_page >>= λ answer. pure tt
