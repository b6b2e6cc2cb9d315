-- ===== src/Examples/Pipeline.antt =====
-- A grant and an update of the sample system, from the service to the worker and back.
use core_status.Cache.{build_status_update_key}
use mathlib.Core.Bool.{false≢true}
use core_status.Base.{
  String, ◌≡◌, ◌≢◌, refl, none, some, List, [], ◌∷◌, In, ◌===◌, ===_iff, if◌then◌else◌, arith,
}
use core_status.Data.Errors.{ok}
use core_status.Data.Json.{str}
use core_status.Data.Entities.{Grant, GrantProperties, all}
use core_status.Data.Requests.{GrantDto}
use core_status.Data.Messages.{StatusUpdateDto}
use core_status.Effects.{World, Env}
use core_status.Effects.Laws.{IsRedis}
use core_status.Access.{status_grants_create_historical, status_grants_create_live}
use core_status.Cache.{built_grants_per_stream_key}
use core_status.Cache.Members.{AllParse}
use core_status.Grants.Service.{save}
use core_status.Subscribers.{grant_json}
use core_status.Worker.{handle_status_update_event}
use core_status.Worker.Fanout.{Answers}
use core_status.Worker.Revoked.{forwarded}
use core_status.Worker.Pipeline.{saved_grant_forwarded}
use core_status.Examples.Sample.{sample, start, early_json}

abbrev key : GrantProperties
key = record { re_encryption_key = "key-c"; e2e_key = "e2e" }

abbrev dto : GrantDto
dto = record {
  from_date = "spring";
  to_date = "summer";
  type = all;
  properties = key;
  recipient_id = "carol";
  owner_id = "";
  stream_id = "stream-1";
}

abbrev granted : Grant
granted = record {
  id = "grant-n";
  type = all;
  properties = some key;
  recipient_id = "carol";
  owner_id = "alice";
  from_date = 10;
  to_date = 20;
  stream_id = "stream-1";
}

-- the sample system with the text of the new grant
abbrev env : Env
env = record sample {
  json_stringify = λ j. "granted";
  json_parse = λ text.
      if text === "early"
      then some early_json
      else if text === "granted"
      then some (grant_json sample granted)
      else none;
}

env-IsRedis : IsRedis env
env-IsRedis = record {
  get_reads = λ k m v h. ground arith;
  set_writes = λ k value m m' h j. ground arith;
  smembers_reads = λ k m v h. ground arith;
  sadd_adds = λ k value m m' h. ground (arith, ===_iff k k);
}

abbrev scopes : List String
scopes = status_grants_create_historical ∷ status_grants_create_live ∷ []

abbrev saved : World
unfolding save
saved = (save env "alice" dto scopes start).1

saves : save env "alice" dto scopes start ≡ (ok granted, saved)
unfolding save core_status.Subscribers.after_insert core_status.Cache.sadd core_status.Cache.set
    core_status.Subscribers.push_grant_to_channel_group core_status.Subscribers.join_channel
    core_status.Pubnub.subscribe_to_channel core_status.Pubnub.add_channels_to_pubnub_channel_group
    core_status.Subscribers.announce
saves = refl

abbrev new_status : StatusUpdateDto
new_status = record {
  id = "update-1";
  stream_id = "stream-1";
  user_id = "alice";
  recorded_at = "spring";
  payload = "cipher";
}

members_parse : AllParse env (saved.sets (built_grants_per_stream_key "stream-1"))
unfolding save core_status.Subscribers.after_insert core_status.Cache.sadd core_status.Cache.set
    core_status.Subscribers.push_grant_to_channel_group core_status.Subscribers.join_channel
    core_status.Pubnub.subscribe_to_channel core_status.Pubnub.add_channels_to_pubnub_channel_group
    core_status.Subscribers.announce built_grants_per_stream_key
members_parse = ((grant_json sample granted, refl), ((early_json, refl), tt))

answers : Answers env new_status saved
answers = (λ k. refl, λ e h. refl)

is_filled : key.re_encryption_key ≢ ""
is_filled e = false≢true ((===_iff "key-c" "").1 e)

saved_grant_forwarded_example :
    In
      (forwarded env new_status granted (str "key-c"))
      (handle_status_update_event env new_status saved).1.history
saved_grant_forwarded_example =
    saved_grant_forwarded env env-IsRedis "alice" dto scopes start saved granted key new_status
      saves refl refl is_filled refl refl members_parse answers refl
