-- ===== src/Clients/Requests.antt =====
-- The requests of the channel API's client, each as it is before the interceptor (src/products/services/api.ts).
use Prim.Native.String.{◌++◌}
use core_status.Base.{ℕ, String, Option, none, some, List, [], ◌∷◌}
use core_status.Data.Json.{Json, Items, nil, cons, str, arr, obj, field, end}
use core_status.Data.Messages.{HttpRequest}
use core_status.Effects.{Env}
use core_status.Clients.Bodies.{AddChannelBody, channel_json}
use core_status.Clients.Messages.{MessagePayload, message_json}

abbrev pub plain : Env → String → String → Option Json → HttpRequest
plain env verb path body = record {
  verb = verb;
  url = env.api_url ++ path;
  params = [];
  body = body;
  headers = [];
}

abbrev pub paged : Env → String → List (String × ℕ) → HttpRequest
paged env path params = record {
  verb = "GET";
  url = env.api_url ++ path;
  params = params;
  body = none;
  headers = [];
}

abbrev pub page_params : ℕ → ℕ → List (String × ℕ)
page_params page per_page = ("page", page) ∷ ("per_page", per_page) ∷ []

abbrev texts : List String → Items
texts [] = nil
texts (t ∷ ts) = cons (str t) (texts ts)

unfoldable pub get_subscriptions : Env → ℕ → HttpRequest
get_subscriptions env page = paged env "/subscriptions" (("page", page) ∷ [])

unfoldable pub get_channels : Env → ℕ → ℕ → HttpRequest
get_channels env page per_page = paged env "/channels" (page_params page per_page)

unfoldable pub search_channels : Env → List String → HttpRequest
search_channels env participants =
    plain env "POST" "/channels/search"
      (some (obj (field "participants" (arr (texts participants)) end)))

unfoldable pub create_channel : Env → AddChannelBody → HttpRequest
unfolding channel_json
create_channel env payload = plain env "POST" "/channels" (some (channel_json payload))

unfoldable pub get_messages : Env → String → ℕ → ℕ → HttpRequest
get_messages env channel_id page per_page =
    paged env ("/channels/" ++ channel_id ++ "/messages") (page_params page per_page)

unfoldable pub send_message : Env → MessagePayload → HttpRequest
unfolding message_json
send_message env payload = plain env "POST" "/messages" (some (message_json payload))

unfoldable pub set_message_delivered : Env → String → HttpRequest
set_message_delivered env message_id =
    plain env "PUT" ("/messages/" ++ message_id ++ "/delivered") none

unfoldable pub set_message_seen : Env → String → HttpRequest
set_message_seen env message_id = plain env "PUT" ("/messages/" ++ message_id ++ "/seen") none

unfoldable pub get_counters : Env → ℕ → ℕ → HttpRequest
get_counters env page per_page = paged env "/counters" (page_params page per_page)

unfoldable pub get_user_blocks : Env → HttpRequest
get_user_blocks env = paged env "/messaging/blocked-users" []

unfoldable pub get_blocked_user : Env → String → HttpRequest
get_blocked_user env user_id = paged env ("/messaging/blocked-users/" ++ user_id) []

unfoldable pub block_user : Env → String → HttpRequest
block_user env user_id = plain env "PUT" ("/messaging/blocked-users/" ++ user_id) none

unfoldable pub unblock_user : Env → String → HttpRequest
unblock_user env user_id = plain env "DELETE" ("/messaging/blocked-users/" ++ user_id) none
