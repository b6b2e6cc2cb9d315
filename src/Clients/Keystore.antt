-- ===== src/Clients/Keystore.antt =====
-- `KeystoreService` (src/products/services/keystore.ts) and the handlers that call it
-- (src/products/controllers/keystore.controller.ts). Its token is set by `createKeystoreKeyByMe` alone.
use Prim.Native.String.{◌++◌}
use core_status.Base.{String, some, []}
use core_status.Data.Errors.{ok}
use core_status.Data.Json.{Json, str, obj, field, end}
use core_status.Data.Messages.{HttpRequest}
use core_status.Publishers.{publish_keystore_update}
use core_status.Effects.{Env, M, pure, ◌>>=◌, ◌>>◌}
use core_status.Clients.{exchange}

-- `KeystoreByMeDto`
pub record KeystoreByMeDto : Type 0 where
  pub public_key : String
  pub encrypted_private_key : String
  pub purpose : String
  pub algorithm_type : String

unfoldable pub key_body : KeystoreByMeDto → Json
key_body dto = obj (
    field "public_key" (str dto.public_key) (
      field "encrypted_private_key" (str dto.encrypted_private_key)
        (field "purpose" (str dto.purpose) (field "algorithm_type" (str dto.algorithm_type) end))))

unfoldable pub post : Env → String → Json → HttpRequest
post env path body = record {
  verb = "POST";
  url = env.keystore_url ++ path;
  params = [];
  body = some body;
  headers = [];
}

unfoldable pub fetch : Env → HttpRequest → M Json
unfolding exchange
fetch env request = exchange env (λ w. w.keystore_token) request

abbrev pub hold_token : String → M (Unit {0})
hold_token token w = (ok tt, record w { keystore_token = some token })

-- The token that is passed is not used.
unfoldable pub create_keystore : Env → String → String → Json → M Json
unfolding fetch post
create_keystore env token gid_uuid body = do
  result ← fetch env (post env ("/identity/" ++ gid_uuid ++ "/keys") body)
  publish_keystore_update env body
  pure result

unfoldable pub create_keystore_key_by_me : Env → String → KeystoreByMeDto → M Json
unfolding fetch post key_body
create_keystore_key_by_me env token body = do
  hold_token token
  fetch env (post env "/v1/identity/me/keys" (key_body body))

unfoldable pub post_search_key_pair_public : Env → Json → M Json
unfolding fetch post
post_search_key_pair_public env body = fetch env (post env "/v1/identity/keys/search" body)

-- the handlers of `KeystoreController`
unfoldable pub issue_new_key_pair_by_me : Env → String → KeystoreByMeDto → M Json
issue_new_key_pair_by_me env authorization body = create_keystore_key_by_me env authorization body

unfoldable pub handle_search : Env → Json → M Json
handle_search env body = post_search_key_pair_public env body
