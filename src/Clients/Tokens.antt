-- ===== src/Clients/Tokens.antt =====
-- Under whose token the clients send, where one call is made after the other.
use mathlib.Core.List.{append_assoc}
use core_status.Base.{ℕ, String, ◌≡◌, refl, ap, false, Option, none, some, [], ◌∷◌, ◌++◌, arith}
use core_status.Data.Errors.{ok, err}
use core_status.Data.Json.{Json}
use core_status.Data.Messages.{HttpRequest, http_call, publish_channel, publish_keystore}
use core_status.Effects.{World, Env, next-eq-ok}
use core_status.Clients.{exchange, with_header, no_access_token_error}
use core_status.Clients.Requests as Requests
use Prim.Native.String as Text
use core_status.Clients.Api as Api
use core_status.Clients.Keystore as Keystore
use core_status.Clients.Keystore.{KeystoreByMeDto}
use core_status.Clients.Bodies.{AddChannelBody, channel_json}

-- the request under a caller's token
abbrev pub authorized : String → HttpRequest → HttpRequest
authorized token request = with_header "Authorization" token request

pub exchange_sends :
    (env : Env) (held : World → Option String) (token : String) (request : HttpRequest)
    (w w' : World) (answer : Json)
    → env.is_debug ≡ false
    → held w ≡ some token
    → exchange env held request w ≡ (ok answer, w')
    → w' ≡ record w { history = w.history ++ http_call (authorized token request) ∷ [] }
unfolding exchange
exchange_sends env held token request w w' answer live e h = ground arith

-- What is returned is the answer to the request that was sent.
pub exchange_answers :
    (env : Env) (held : World → Option String) (token : String) (request : HttpRequest)
    (w w' : World) (answer : Json)
    → env.is_debug ≡ false
    → held w ≡ some token
    → exchange env held request w ≡ (ok answer, w')
    → env.http_answer
        (authorized token request)
        (w.history ++ http_call (authorized token request) ∷ [])
      ≡ ok answer
unfolding exchange
exchange_answers env held token request w w' answer live e h = ground arith

-- A channel that is created was asked for under the caller's token, and was published after the answer.
pub create_channel_history :
    (env : Env) (token : String) (payload : AddChannelBody) (w w' : World) (answer : Json)
    → env.is_debug ≡ false
    → Api.create_channel env token payload w ≡ (ok answer, w')
    → (w'.history
        ≡ w.history
          ++ http_call (authorized token (Requests.create_channel env payload))
            ∷ publish_channel (channel_json payload)
            ∷ [])
      × (w'.api_token ≡ some token)
unfolding Api.create_channel
create_channel_history env token payload w w' answer live h =
    let held : World = record w { api_token = some token } in
    let request = Requests.create_channel env payload in
    let (x, w₁, fetched, h₁) = next-eq-ok (Api.fetch env request held) _ h in
    let sent = exchange_sends env (λ v. v.api_token) token request held w₁ x live refl fetched in
    ground (
      arith,
      append_assoc w.history (http_call (authorized token request) ∷ [])
          (publish_channel (channel_json payload) ∷ []),
    )

-- Channels are listed under the token of the user who created a channel last, whoever asks for them.
channels_under_last_creator :
    (env : Env) (token : String) (payload : AddChannelBody) (page per_page : ℕ) (w w' w'' : World)
    (answer listed : Json)
    → env.is_debug ≡ false
    → Api.create_channel env token payload w ≡ (ok answer, w')
    → Api.get_channels env page per_page w' ≡ (ok listed, w'')
    → w''.history
      ≡ w'.history ++ http_call (authorized token (Requests.get_channels env page per_page)) ∷ []
unfolding Api.get_channels Api.fetch
channels_under_last_creator env token payload page per_page w w' w'' answer listed live h k =
    let held = (create_channel_history env token payload w w' answer live h).1 in
    ap (λ (v : World). v.history)
      (exchange_sends env (λ v. v.api_token) token (Requests.get_channels env page per_page) w' w''
        listed live held k)

-- Before a channel was created, no call goes out: each is refused as one without a token, and nothing changes.
pub fetch_without_token :
    (env : Env) (request : HttpRequest) (w : World)
    → env.is_debug ≡ false
    → w.api_token ≡ none
    → Api.fetch env request w ≡ (err no_access_token_error, w)
unfolding Api.fetch
fetch_without_token env request w live e = ground arith

abbrev pub keys_path : String → String
keys_path gid_uuid = Text.◌++◌ "/identity/" (Text.◌++◌ gid_uuid "/keys")

-- `createKeystore` does not use its token: after a key pair that was made under `a` it is sent under `a`, whatever
-- token it is given.
pub create_keystore_ignores_token :
    (env : Env) (a b gid_uuid : String) (dto : KeystoreByMeDto) (body : Json) (w w' w'' : World)
    (pair made : Json)
    → env.is_debug ≡ false
    → Keystore.create_keystore_key_by_me env a dto w ≡ (ok pair, w')
    → Keystore.create_keystore env b gid_uuid body w' ≡ (ok made, w'')
    → w''.history
      ≡ w'.history
        ++ http_call (authorized a (Keystore.post env (keys_path gid_uuid) body))
          ∷ publish_keystore body
          ∷ []
unfolding Keystore.create_keystore Keystore.create_keystore_key_by_me
create_keystore_ignores_token env a b gid_uuid dto body w w' w'' pair made live h k =
    let held : World = record w { keystore_token = some a } in
    let sent =
      exchange_sends env (λ v. v.keystore_token) a
        (Keystore.post env "/v1/identity/me/keys" (Keystore.key_body dto)) held w' pair live refl
        h in
    let path = keys_path gid_uuid in
    let (x, w₁, fetched, k₁) =
      next-eq-ok (Keystore.fetch env (Keystore.post env path body) w') _ k in
    let again =
      exchange_sends env (λ v. v.keystore_token) a (Keystore.post env path body) w' w₁ x live
        (ground arith) fetched in
    ground (
      arith,
      append_assoc w'.history (http_call (authorized a (Keystore.post env path body)) ∷ [])
          (publish_keystore body ∷ []),
    )
