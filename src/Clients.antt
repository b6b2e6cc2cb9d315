-- ===== src/Clients.antt =====
-- The clients of other HTTP services: what axios sends for a call (src/products/services/api.ts and keystore.ts,
-- src/products/util/validation.ts, src/products/error/authorization.ts).
pub mod Api
pub mod Keystore
pub mod Bodies
pub mod Messages
pub mod Requests
pub mod Tokens
pub mod Interleaving
use core_status.Base.{
  ℕ, String, Bool, true, false, ◌&&◌, Option, none, some, List, [], ◌∷◌, ◌++◌, ◌===◌, if◌then◌else◌,
}
use core_status.Data.Errors.{Error, Result, ok, err, failure}
use core_status.Data.Json.{Json, str, obj, field, end}
use core_status.Data.Messages.{Effect, HttpRequest, http_call}
use core_status.Effects.{World, Env, M, ◌>>=◌, ◌>>◌, query, call}

-- `isEmpty`: a text is empty where its length is 0.
unfoldable pub is_empty : Option String → Bool
is_empty none = true
is_empty (some value) = value === ""

abbrev pub no_access_token_error : Error
no_access_token_error = failure "" ""

abbrev pub is_blank_text : Option String → Bool
is_blank_text none = false
is_blank_text (some value) = value === ""

-- `JSON.stringify` of the debug identity
unfoldable pub debug_identity : Env → String
debug_identity env = env.json_stringify (
    obj (
      field "globalid" (str env.test_user.0) (
        field "uuid" (str env.test_user.1) (
          field "client_id" (str "72eed7a4-a949-4305-bf1b-4d695bdfa817")
            (field "grant_type" (str "refresh_token") (field "rnd" (str "test") end))))))

abbrev pub with_header : String → String → HttpRequest → HttpRequest
with_header name value request = record request { headers = (name, value) ∷ request.headers }

-- `${this.accessToken}`
abbrev pub token_text : Option String → String
token_text none = "undefined"
token_text (some token) = token

-- `createInterceptor`, by the token that the service holds when the interceptor runs
unfoldable pub intercept : Env → Option String → HttpRequest → Result HttpRequest
unfolding is_empty debug_identity
intercept env token request =
    if env.is_debug && is_blank_text token
    then ok (with_header "x-token-data" (debug_identity env) request)
    else if is_empty token
    then err no_access_token_error
    else ok (with_header "Authorization" (token_text token) request)

-- One request, from its interceptor to the body of its answer (`getResponseData`).
unfoldable pub exchange : Env → (World → Option String) → HttpRequest → M Json
unfolding intercept
exchange env held request = do
  authorized ← query (λ w. intercept env (held w) request)
  call env (http_call authorized)
  query (λ w. env.http_answer authorized w.history)
