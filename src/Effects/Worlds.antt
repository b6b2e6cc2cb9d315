-- ===== src/Effects/Worlds.antt =====
-- The state outside the process, and the calls that read or change it.
use core_status.Base.{ℕ, String, Bool, Option, List}
use core_status.Data.Errors.{Result}
use core_status.Data.Json.{Json}
use core_status.Data.Entities.{Grant, Stream, StreamType, Update, UploadEntity, Product}
use core_status.Data.Requests.{GrantDto, StreamDto, StreamTypeDto, StatusRow, ImageResponseDto}
use core_status.Data.Messages.{Effect, HttpRequest}
use core_status.Effects.Tables.{Table}

abbrev pub Strings : Type 0
Strings = String → Option String

abbrev pub Sets : Type 0
Sets = String → List String

pub record World : Type 0 where
  -- the tables of the database
  pub grants : List Grant
  pub streams : List Stream
  pub stream_types : List StreamType
  pub updates : List Update
  pub files : List UploadEntity
  pub products : List Product
  -- Redis: the strings and the sets, by key
  pub strings : Strings
  pub sets : Sets
  -- the calls of outside services that went through, in order
  pub history : List Effect
  -- `client !== undefined` in pubnub.ts
  pub pubnub_ready : Bool
  -- `accessToken` of the one `ApiService` and of the one `KeystoreService`; `none` is `undefined`
  pub api_token : Option String
  pub keystore_token : Option String

pub record Env : Type 0 where
  pub grant_table : Table Grant GrantDto
  pub stream_table : Table Stream StreamDto
  pub stream_type_table : Table StreamType StreamTypeDto
  pub update_table : Table Update StatusRow
  pub file_table : Table UploadEntity UploadEntity
  pub product_table : Table Product Product
  -- the rows of grants that are left where the subscriber of TypeORM's `save` throws, from those before the call and
  -- those at the throw
  pub roll_back : List Grant → List Grant → List Grant
  -- `find` with `order: {uploaded_at: 'ASC'}`
  pub find_updates_by_upload : (Update → Bool) → List Update → Result (List Update)
  -- `findOne(id, {relations: ['streamType']})`
  pub find_stream_with_type :
      String → List Stream → List StreamType → Result (Option (Stream × StreamType))
  -- a call of PubNub, RabbitMQ or S3 after those of the list: it goes through or throws
  pub perform : Effect → List Effect → Result (Unit {0})
  -- Redis commands
  pub redis_get : String → Strings → Result (Option String)
  pub redis_set : String → String → Strings → Result Strings
  pub redis_smembers : String → Sets → Result (List String)
  pub redis_sadd : String → String → Sets → Result Sets
  -- `JSON.parse`, with `none` for a text that it refuses, and `JSON.stringify`
  pub json_parse : String → Option Json
  pub json_stringify : Json → String
  -- `new Date(text).getTime()` and the database's reading of a date text; `none` is no date
  pub date : String → Option ℕ
  pub database_date : String → Option ℕ
  -- `toISOString`
  pub iso : ℕ → String
  -- `_.sortBy(grants, 'fromDate')`
  pub sort_by_from_date : List Grant → List Grant
  -- @articice/globalid-crypto-library-pre
  pub bytes_to_hex : String → String
  pub hex_to_bytes : Option String → Result String
  pub re_encrypt : String → Option Json → Result Json
  -- `pubnub.hereNow`: the uuids of a channel's occupants, `none` for a channel it does not list
  pub here_now : String → List Effect → Result (Option (List String))
  -- `IS_DEBUG`, and the variables `TEST_USER_GLOBALID` and `TEST_USER_UUID`
  pub is_debug : Bool
  pub test_user : String × String
  -- `API_URL` and `SVC_URL_KEYSTORE`
  pub api_url : String
  pub keystore_url : String
  -- axios: the body of the answer to a request, after the calls of the list; an error answer throws
  pub http_answer : HttpRequest → List Effect → Result Json
  -- the fields `uuid` and `device_id` of a `KeyPairCreateResponse`; a value without fields throws
  pub read_key_pair : Json → Result (String × String)
  -- what the callbacks of `s3.upload` and of its `send` are called with, in their order, for a file under a key
  -- and a bucket; `s3.headObject`: the length of an object
  pub s3_upload : String → String → List Effect → List (Result ImageResponseDto)
  pub s3_head : Option String → String → List Effect → Result ℕ
