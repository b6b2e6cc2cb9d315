-- ===== src/Examples/Sample.antt =====
-- One system: Alice's stream, her grants to Bob, a status update and two files.
use core_status.Base.{
  ℕ, String, true, false, Option, none, some, List, [], ◌∷◌, ◌===◌, if◌then◌else◌, select, arith,
  ===_iff, In-select,
}
use core_status.Data.Errors.{ok}
use core_status.Data.Json.{Json, str, obj, field, end}
use core_status.Data.Entities.{
  Grant, range, all, latest, Stream, StreamType, Update, UploadEntity, content,
}
use core_status.Data.Requests.{GrantDto, StreamDto, StreamTypeDto, StatusRow}
use core_status.Effects.{World, Env}
use core_status.Effects.Laws.{IsRedis}
use core_status.Grants.Service.Singleton.{StoresGrant}
use core_status.Status.Write.Checked.{StoresStatus}
use core_status.Status.Read.Granted.{FindsUpdates}
use core_status.Examples.Memory.{memory_table}
use core_status.Examples.Sorting.{sort_grants}

abbrev pub date_of : String → Option ℕ
date_of text =
    if text === "spring"
    then some 10
    else if text === "summer"
    then some 20
    else if text === "autumn"
    then some 30
    else none

abbrev number : Option ℕ → ℕ
number none = 0
number (some n) = n

abbrev fresh_grant_id : List Grant → String
fresh_grant_id [] = "grant-0"
fresh_grant_id (g ∷ gs) = "grant-n"

abbrev make_grant : GrantDto → List Grant → Grant
make_grant dto rows = record {
  id = fresh_grant_id rows;
  type = dto.type;
  properties = some dto.properties;
  recipient_id = dto.recipient_id;
  owner_id = dto.owner_id;
  from_date = number (date_of dto.from_date);
  to_date = number (date_of dto.to_date);
  stream_id = dto.stream_id;
}

abbrev make_stream : StreamDto → List Stream → Stream
make_stream dto rows = record {
  id = "stream-n";
  owner_id = dto.owner_id;
  keypair_id = dto.keypair_id;
  device_id = dto.device_id;
  type = dto.type;
}

abbrev make_stream_type : StreamTypeDto → List StreamType → StreamType
make_stream_type dto rows = record {
  id = "type-n";
  granularity = dto.granularity;
  stream_handling = dto.stream_handling;
  approximated = dto.approximated;
  supported_grants = dto.supported_grants;
  type = dto.type;
}

abbrev make_update : StatusRow → List Update → Update
make_update row rows = record {
  id = row.status.id;
  user_id = row.user_id;
  stream_id = row.status.stream_id;
  payload = some row.status.payload;
  recorded_at = number (date_of row.status.recorded_at);
  uploaded_at = 40;
  marker = row.marker;
}

abbrev pub walk_type : StreamType
walk_type = record {
  id = "type-1";
  granularity = "single";
  stream_handling = "lockbox";
  approximated = false;
  supported_grants = range ∷ all ∷ latest ∷ [];
  type = "walk";
}

abbrev pub walk : Stream
walk = record {
  id = "stream-1";
  owner_id = "alice";
  keypair_id = "keys";
  device_id = "phone";
  type = "walk";
}

abbrev pub range_grant : String → ℕ → ℕ → Grant
range_grant id from to = record {
  id = id;
  type = range;
  properties = some (record { re_encryption_key = "key-"; e2e_key = "e2e" });
  recipient_id = "bob";
  owner_id = "alice";
  from_date = from;
  to_date = to;
  stream_id = "stream-1";
}

abbrev pub early : Grant
early = range_grant "early" 5 15

abbrev pub late : Grant
late = range_grant "late" 15 25

abbrev pub morning : Update
morning = record {
  id = "update-1";
  user_id = "alice";
  stream_id = "stream-1";
  payload = some "cipher";
  recorded_at = 12;
  uploaded_at = 13;
  marker = record { started = none; stopped = none; frequency = none; deleted = some false };
}

abbrev pub note : UploadEntity
note = record {
  id = "file-1";
  key = "day/note";
  location = none;
  bucket = none;
  etag = none;
  type = content;
  bytes = some (1 ∷ 2 ∷ []);
  created_at = 1;
  updated_at = 1;
  user_id = "alice";
}

abbrev pub start : World
start = record {
  grants = late ∷ early ∷ [];
  streams = walk ∷ [];
  stream_types = walk_type ∷ [];
  updates = morning ∷ [];
  files = note ∷ [];
  products = [];
  strings = λ key. if key === "grant-reencryption-key:early" then some "key-" else none;
  sets = λ key. if key === "stream-grants:stream-1" then "early" ∷ [] else [];
  history = [];
  pubnub_ready = true;
  api_token = none;
  keystore_token = none;
}

-- what is cached of the early grant, as `JSON.stringify` has it
abbrev pub early_json : Json
early_json = obj (
    field "id" (str "early") (
      field "type" (str "range") (
        field "properties"
          (obj (field "reEncryptionKey" (str "key-") (field "e2eKey" (str "e2e") end)))
          (field "recipient_id" (str "bob") (
            field "owner_id" (str "alice") (
              field "fromDate" (str "a day")
                (field "toDate" (str "a day") (field "stream_id" (str "stream-1") end))))))))

abbrev find_typed : String → List Stream → List StreamType → Option (Stream × StreamType)
find_typed id [] types = none
find_typed id (s ∷ ss) [] = none
find_typed id (s ∷ ss) (t ∷ ts) = if s.id === id then some (s, t) else find_typed id ss (t ∷ ts)

abbrev pub sample : Env
sample = record {
  grant_table = memory_table make_grant;
  stream_table = memory_table make_stream;
  stream_type_table = memory_table make_stream_type;
  update_table = memory_table make_update;
  file_table = memory_table (λ f rows. f);
  product_table = memory_table (λ p rows. p);
  roll_back = λ before now. before;
  find_updates_by_upload = λ p rows. ok (select p rows);
  find_stream_with_type = λ id streams types. ok (find_typed id streams types);
  perform = λ e history. ok tt;
  redis_get = λ key m. ok (m key);
  redis_set = λ key value m. ok (λ j. if key === j then some value else m j);
  redis_smembers = λ key m. ok (m key);
  redis_sadd = λ key value m. ok (λ j. if key === j then value ∷ m j else m j);
  json_parse = λ text.
      if text === "early"
      then some early_json
      else if text === "plain"
      then some (obj (field "lockbox" (str "locked") end))
      else none;
  json_stringify = λ j. "text";
  date = date_of;
  database_date = date_of;
  iso = λ n. "a day";
  sort_by_from_date = sort_grants;
  bytes_to_hex = λ s. s;
  hex_to_bytes = λ chunk. ok "plain";
  re_encrypt = λ key old. ok (str "unlocked");
  here_now = λ channel history. ok (
      if channel === "grant_early"
      then some ("bob" ∷ [])
      else if channel === "grant_late"
      then some []
      else none);
  is_debug = false;
  test_user = ("tester", "test-1");
  api_url = "https://api";
  keystore_url = "https://keys";
  http_answer = λ request history. ok (str "answer");
  read_key_pair = λ answer. ok ("keys", "phone");
  s3_upload =
      λ key bucket history. ok (record { bucket = bucket; etag = "tag"; location = "there" }) ∷ [];
  s3_head = λ bucket key history. ok 25;
}

pub sample-IsRedis : IsRedis sample
sample-IsRedis = record {
  get_reads = λ key m v h. ground arith;
  set_writes = λ key value m m' h j. ground arith;
  smembers_reads = λ key m v h. ground arith;
  sadd_adds = λ key value m m' h. ground (arith, ===_iff key key);
}

pub sample-StoresGrant : StoresGrant sample
sample-StoresGrant dto rows rows' g h = ground arith

pub sample-StoresStatus : StoresStatus sample
sample-StoresStatus row rows rows' u h = ground arith

pub sample-FindsUpdates : FindsUpdates sample
sample-FindsUpdates p rows found h u i = In-select p u rows (ground arith)
