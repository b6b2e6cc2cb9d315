-- ===== src/Streams.antt =====
-- Streams and their types (src/products/services/stream.service.ts, src/products/services/stream_type.service.ts,
-- src/products/validators/stream-type.validator.ts and the repositories that they call).
pub mod Laws
use core_status.Base.{String, Bool, true, false, Option, none, some, List, ◌===◌, if◌then◌else◌}
use core_status.Data.Errors.{Error, http, internal_server_error, not_found, error_code}
use core_status.Data.Entities.{Stream, StreamType}
use core_status.Data.Requests.{StreamDto, StreamTypeDto, CreateStreamRequestBody}
use core_status.Clients.Keystore.{KeystoreByMeDto, create_keystore_key_by_me}
use core_status.Effects.{Env, M, pure, throw, ◌>>=◌, catch, query, commit}

-- `PG_UNIQUE_CONSTRAINT_VIOLATION` of util.ts
abbrev pub pg_unique_constraint_violation : String
pg_unique_constraint_violation = "23505"

-- `StreamService.getAll`: the streams of every owner
unfoldable pub get_all : Env → M (List Stream)
get_all env = query (λ w. env.stream_table.find (λ s. true) w.streams)

-- `StreamRepository.saveStream`
unfoldable pub save_stream : Env → StreamDto → M Stream
save_stream env dto w =
    commit (env.stream_table.insert dto w.streams) (λ rows. record w { streams = rows }) w

-- `StreamRepository.getStream` with the owner as its condition
unfoldable pub get_streams_of : Env → String → M (List Stream)
get_streams_of env owner_id =
    query (λ w. env.stream_table.find (λ s. s.owner_id === owner_id) w.streams)

-- the request to the keystore for a stream's key pair
abbrev pub stream_keys : CreateStreamRequestBody → KeystoreByMeDto
stream_keys body = record {
  public_key = body.public_key;
  encrypted_private_key = body.encrypted_private_key;
  purpose = "status-stream";
  algorithm_type = "ec";
}

-- `StreamService.create`
unfoldable pub create : Env → String → String → CreateStreamRequestBody → M Stream
unfolding save_stream create_keystore_key_by_me
create env owner_id token body = do
  answer ←
      catch (create_keystore_key_by_me env token (stream_keys body))
        (λ e. throw internal_server_error)
  keypair ← query (λ w. env.read_key_pair answer)
  save_stream env (record {
    type = body.stream_type;
    owner_id = owner_id;
    keypair_id = keypair.0;
    device_id = keypair.1;
  })

-- `StreamService.getById` with the stream's type
unfoldable pub get_by_id : Env → String → M (Option (Stream × StreamType))
get_by_id env id = query (λ w. env.find_stream_with_type id w.streams w.stream_types)

-- `StreamTypeService.getType`
unfoldable pub get_type : Env → String → M (Option StreamType)
get_type env type =
    query (λ w. env.stream_type_table.find_one (λ t. t.type === type) w.stream_types)

-- `StreamTypeService.getAll`
unfoldable pub get_types : Env → M (List StreamType)
get_types env = query (λ w. env.stream_type_table.find (λ t. true) w.stream_types)

-- `StreamTypeRepository.saveStreamType`
unfoldable pub save_stream_type : Env → StreamTypeDto → M StreamType
save_stream_type env dto w =
    commit (env.stream_type_table.insert dto w.stream_types)
      (λ rows. record w { stream_types = rows }) w

-- the `catch` of `StreamTypeService.save`: another error is dropped, and nothing is returned
unfoldable pub type_conflict : Error → M (Option StreamType)
type_conflict e =
    if error_code e === pg_unique_constraint_violation
    then throw (http 409 "type exists")
    else pure none

-- `StreamTypeService.save`, with `none` for `undefined`
unfoldable pub save_type : Env → StreamTypeDto → M (Option StreamType)
unfolding save_stream_type type_conflict
save_type env dto = catch (save_stream_type env dto >>= λ t. pure (some t)) type_conflict

-- `StreamTypeService.delete`
unfoldable pub delete_type : Env → String → M (List StreamType)
delete_type env id w =
    commit (env.stream_type_table.remove (λ t. t.id === id) w.stream_types)
      (λ rows. record w { stream_types = rows }) w

-- `shouldBe` and `maybeFound` of the validator
unfoldable pub availability : Bool → Option StreamType → M Bool
availability true none = throw (not_found "stream type not found")
availability true (some t) = pure true
availability false (some t) = throw (http 409 "stream already exists")
availability false none = pure true

-- `StreamTypeNotExistsRule.validate`
unfoldable pub validate : Env → Bool → String → M Bool
unfolding get_type availability
validate env should_be type = do
  found ← catch (get_type env type) (λ e. throw internal_server_error)
  availability should_be found
