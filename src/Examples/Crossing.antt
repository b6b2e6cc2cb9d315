-- ===== src/Examples/Crossing.antt =====
-- Two requests of Alice for a latest grant of her stream to Carol, which cross.
use core_status.Base.{String, ◌≡◌, ◌≤◌, refl, some, List, [], ◌∷◌, length, select}
use core_status.Data.Errors.{Error, ok, err}
use core_status.Data.Entities.{Grant, latest}
use core_status.Data.Requests.{GrantDto}
use core_status.Effects.{World}
use core_status.Access.{status_grants_create_historical, status_grants_create_live}
use core_status.Grants.Service.{is_singleton, save}
use core_status.Grants.Service.Race.{save_crossed, save_crossed_doubles}
use core_status.Examples.Memory.{memory_table-IsTable}
use core_status.Examples.Sample.{sample, start, sample-StoresGrant}

abbrev scopes : List String
scopes = status_grants_create_historical ∷ status_grants_create_live ∷ []

abbrev dto : GrantDto
dto = record {
  from_date = "spring";
  to_date = "summer";
  type = latest;
  properties = record { re_encryption_key = "key-c"; e2e_key = "e2e" };
  recipient_id = "carol";
  owner_id = "";
  stream_id = "stream-1";
}

abbrev granted : Grant
granted = record {
  id = "grant-n";
  type = latest;
  properties = some (record { re_encryption_key = "key-c"; e2e_key = "e2e" });
  recipient_id = "carol";
  owner_id = "alice";
  from_date = 10;
  to_date = 20;
  stream_id = "stream-1";
}

abbrev crossed : World
unfolding save_crossed
crossed = (save_crossed sample "alice" dto dto scopes start).1

crosses : save_crossed sample "alice" dto dto scopes start ≡ (ok (granted, granted), crossed)
unfolding save_crossed core_status.Subscribers.after_insert core_status.Cache.sadd
    core_status.Cache.set core_status.Subscribers.push_grant_to_channel_group
    core_status.Subscribers.join_channel core_status.Pubnub.subscribe_to_channel
    core_status.Pubnub.add_channels_to_pubnub_channel_group core_status.Subscribers.announce
    core_status.Pubnub.pubnub_publish
crosses = refl

abbrev alone : World
unfolding save
alone = (save sample "alice" dto scopes start).1

saves_alone : save sample "alice" dto scopes start ≡ (ok granted, alone)
unfolding save core_status.Subscribers.after_insert core_status.Cache.sadd core_status.Cache.set
    core_status.Subscribers.push_grant_to_channel_group core_status.Subscribers.join_channel
    core_status.Pubnub.subscribe_to_channel core_status.Pubnub.add_channels_to_pubnub_channel_group
    core_status.Subscribers.announce core_status.Pubnub.pubnub_publish
saves_alone = refl

save_crossed_doubles_example :
    (length (select (is_singleton "stream-1" "alice" "carol") start.grants) ≡ 0)
    × (2 ≤ length (select (is_singleton "stream-1" "alice" "carol") crossed.grants))
    × ((e : Error) × ((save sample "alice" dto scopes alone).0 ≡ err e))
save_crossed_doubles_example =
    save_crossed_doubles sample (memory_table-IsTable _) sample-StoresGrant "alice" dto dto scopes
      start crossed alone granted granted granted refl refl refl refl crosses saves_alone
