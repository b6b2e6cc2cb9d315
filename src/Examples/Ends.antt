-- ===== src/Examples/Ends.antt =====
-- A status of Alice that Carol reads: encrypted, granted, re-encrypted, cached, served and decrypted.
use Prim.Native.String as Text
use mathlib.Core.Bool.{false≢true}
use text.Mathlib.TextLemmas.{cons-ne-nil}
use core_status.Base.{
  String, ◌≡◌, ◌≢◌, refl, Option, none, some, List, [], ◌∷◌, In, inl, ◌===◌, ===_iff, if◌then◌else◌,
  arith,
}
use core_status.Data.Errors.{Result, ok, err, type_error}
use core_status.Data.Json.{Json, str, obj, field, end}
use core_status.Data.Entities.{Grant, GrantProperties, all}
use core_status.Data.Requests.{GrantDto, TimeRangeDto}
use core_status.Data.Messages.{StatusUpdateDto, send_pre}
use core_status.Effects.{World, Env}
use core_status.Effects.Laws.{IsRedis}
use core_status.Access.{status_grants_create_historical, status_grants_create_live}
use core_status.Cache.{built_grants_per_stream_key}
use core_status.Cache.Members.{AllParse}
use core_status.Grants.Service.{save}
use core_status.Subscribers.{grant_json}
use core_status.Pre.Ends.{Lockboxes, encrypt_payload}
use core_status.Pre.Reading.{ReadsBack, Carries, ReEncryptsFor}
use core_status.Status.Read.{Served, get_user_status_by_stream_id}
use core_status.Examples.Memory.{memory_table-IsTable}
use core_status.Examples.Reading.{sample-FindsAll}
use core_status.Worker.{handle_status_update_event, handle_pre_event, check_listeners}
use core_status.Worker.Through.{AllAnswer, task_for, Opens, granted_reader-Opens}
use core_status.Examples.Sample.{sample, start, morning}
use core_status.Examples.Encoding.{stringify, parse, parse-stringify}

abbrev unhex : Option String → Result String
unhex none = err type_error
unhex (some Text.[]) = err type_error
unhex (some (Text.◌∷◌ c s)) = ok s

-- the sample system with texts that are read back, and Carol as the only listener
abbrev env : Env
env = record sample {
  json_stringify = stringify;
  json_parse = parse;
  bytes_to_hex = λ s. Text.◌∷◌ "x" s;
  hex_to_bytes = unhex;
  re_encrypt = λ key old. ok (str "for carol");
  here_now = λ channel history. ok (some ("carol" ∷ []));
}

env-IsRedis : IsRedis env
env-IsRedis = record {
  get_reads = λ k m v h. ground arith;
  set_writes = λ k value m m' h j. ground arith;
  smembers_reads = λ k m v h. ground arith;
  sadd_adds = λ k value m m' h. ground (arith, ===_iff k k);
}

env-AllAnswer : AllAnswer env
env-AllAnswer = record {
  get = λ k m. refl;
  set = λ k value m. (_, refl);
  smembers = λ k m. refl;
  perform = λ e h. refl;
}

env-ReadsBack : ReadsBack env
env-ReadsBack = record {
  hex = λ s. refl;
  json = λ fs. parse-stringify (obj fs);
  no_json = λ fs. refl;
  filled = λ fs e. cons-ne-nil _ _ e;
}

-- a lockbox that names its reader, and a content that is the text
abbrev content_of : Option Json → Result String
content_of none = err type_error
content_of (some (str s)) = ok s
content_of (some j) = err type_error

abbrev boxes : Lockboxes String
boxes = record {
  to_bytes = λ s. s;
  to_text = λ s. s;
  buffer_from = content_of;
  lockbox_encrypt = λ key s. obj (field "lockbox" (str key) (field "content" (str s) end));
  lockbox_decrypt = λ key box s. if key === "carol's" then ok s else err type_error;
}

boxes-Carries : Carries boxes
boxes-Carries = record { text = λ s. refl }

rekeys : ReEncryptsFor env boxes "alice's" "key-c" "carol's"
rekeys bytes = (_, _, _, _, _, refl, refl, refl, refl, refl, refl)

abbrev key : GrantProperties
key = record { re_encryption_key = "key-c"; e2e_key = "e2e" }

abbrev dto : GrantDto
dto = record {
  from_date = "spring";
  to_date = "summer";
  type = all;
  properties = key;
  recipient_id = "carol";
  owner_id = "";
  stream_id = "stream-1";
}

abbrev granted : Grant
granted = record {
  id = "grant-n";
  type = all;
  properties = some key;
  recipient_id = "carol";
  owner_id = "alice";
  from_date = 10;
  to_date = 20;
  stream_id = "stream-1";
}

abbrev scopes : List String
scopes = status_grants_create_historical ∷ status_grants_create_live ∷ []

abbrev at_first : World
at_first = record start { sets = λ key. [] }

abbrev saved : World
unfolding save
saved = (save env "alice" dto scopes at_first).1

saves : save env "alice" dto scopes at_first ≡ (ok granted, saved)
unfolding save core_status.Subscribers.after_insert core_status.Cache.sadd core_status.Cache.set
    core_status.Subscribers.push_grant_to_channel_group core_status.Subscribers.join_channel
    core_status.Pubnub.subscribe_to_channel core_status.Pubnub.add_channels_to_pubnub_channel_group
    core_status.Subscribers.announce
saves = refl

abbrev new_status : StatusUpdateDto
unfolding encrypt_payload
new_status = record {
  id = "update-1";
  stream_id = "stream-1";
  user_id = "alice";
  recorded_at = "spring";
  payload = encrypt_payload env boxes "at home" "alice's";
}

of_walk :
    (new_status.stream_id ≡ "stream-1")
    × (new_status.payload ≡ encrypt_payload env boxes "at home" "alice's")
    × (morning.id ≡ new_status.id)
    × (morning.stream_id ≡ new_status.stream_id)
unfolding new_status
of_walk = (refl, refl, refl, refl)

members_parse : AllParse env (saved.sets (built_grants_per_stream_key new_status.stream_id))
unfolding save core_status.Subscribers.after_insert core_status.Cache.sadd core_status.Cache.set
    core_status.Subscribers.push_grant_to_channel_group core_status.Subscribers.join_channel
    core_status.Pubnub.subscribe_to_channel core_status.Pubnub.add_channels_to_pubnub_channel_group
    core_status.Subscribers.announce built_grants_per_stream_key new_status
members_parse = ((grant_json env granted, parse-stringify (grant_json env granted)), tt)

is_filled : key.re_encryption_key ≢ ""
is_filled e = false≢true ((===_iff "key-c" "").1 e)

asks : check_listeners env "grant-n" saved ≡ (ok (some ("carol" ∷ [])), saved)
unfolding check_listeners
asks = refl

abbrev delivered : World
unfolding handle_pre_event
delivered = (handle_pre_event env (task_for env new_status granted key) saved).1

saved_row : In morning saved.updates
unfolding save core_status.Subscribers.after_insert core_status.Cache.sadd core_status.Cache.set
    core_status.Subscribers.push_grant_to_channel_group core_status.Subscribers.join_channel
    core_status.Pubnub.subscribe_to_channel core_status.Pubnub.add_channels_to_pubnub_channel_group
    core_status.Subscribers.announce
saved_row = inl refl

abbrev request : TimeRangeDto
request = record { from_date = "spring"; to_date = "summer" }

answers_carol :
    (served : List Served) × (get_user_status_by_stream_id env "carol" new_status.stream_id request
        delivered
      ≡ (ok served, delivered))
unfolding save core_status.Subscribers.after_insert core_status.Cache.sadd core_status.Cache.set
    core_status.Subscribers.push_grant_to_channel_group core_status.Subscribers.join_channel
    core_status.Pubnub.subscribe_to_channel core_status.Pubnub.add_channels_to_pubnub_channel_group
    core_status.Subscribers.announce new_status delivered handle_pre_event
    get_user_status_by_stream_id core_status.Grants.Service.get_by_range
    core_status.Grants.Range.check_continuous_range core_status.Cache.get
    core_status.Cache.build_status_update_key core_status.Pre.re_encrypt_payload encrypt_payload
    check_listeners
answers_carol = (_, refl)

granted_reader-Opens_example :
    In
      (send_pre "grant-n" (task_for env new_status granted key))
      (handle_status_update_event env new_status saved).1.history
    × Opens env boxes "carol's" "at home" morning answers_carol.0
unfolding handle_pre_event delivered
granted_reader-Opens_example =
    granted_reader-Opens env env-IsRedis env-AllAnswer env-ReadsBack boxes boxes-Carries
      (memory_table-IsTable _) sample-FindsAll "alice's" "carol's" "at home" "alice" dto scopes
      at_first saved saved saved delivered granted key new_status ("carol" ∷ []) request 10 20
      answers_carol.0 morning rekeys saves refl of_walk.0 of_walk.1 is_filled refl members_parse
      asks refl of_walk.2 of_walk.3 saved_row refl refl (omega arith) (omega arith) answers_carol.1
