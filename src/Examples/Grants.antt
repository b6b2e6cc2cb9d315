-- ===== src/Examples/Grants.antt =====
-- Grants of the sample system: the range check, a new grant, a deletion, a change of dates.
use core_status.Base.{
  ℕ, String, ◌≡◌, ◌≢◌, ◌↔◌, refl, not, Option, List, [], ◌∷◌, ◌++◌, In, inl, inr, arith, select,
  change, ◌===◌,
}
use core_status.Data.Errors.{ok}
use core_status.Data.Entities.{Grant, range, latest}
use core_status.Data.Requests.{GrantDto, TimeRangeDto}
use core_status.Effects.{World}
use core_status.Access.{status_grants_create_historical, status_grants_create_live}
use core_status.Grants.Range.{check_continuous_range}
use core_status.Grants.Range.Coverage.{CoversRange, MeetsRange, check_continuous_range_iff}
use core_status.Grants.Service.{save, delete, modify_range, is_own}
use core_status.Grants.Service.Save.{MaySave, save-MaySave}
use core_status.Grants.Service.Singleton.{HasSingletons, save-HasSingletons}
use core_status.Grants.Service.Delete.{delete_removes}
use core_status.Grants.Service.Dates.{with_dates, modify_range_changes}
use core_status.Subscribers.{remove_from_channel_group}
use core_status.Examples.Memory.{memory_table-IsTable}
use core_status.Examples.Sorting.{sort_grants, sort_grants-IsSortBy}
use core_status.Examples.Sample.{sample, start, early, late, date_of, sample-StoresGrant}

abbrev spring_to_summer : TimeRangeDto
spring_to_summer = record { from_date = "spring"; to_date = "summer" }

both_meet :
    (w : Grant)
    → In w (late ∷ early ∷ [])
    → MeetsRange sort_grants sort_grants-IsSortBy date_of spring_to_summer 10 20 refl refl w
both_meet w (inl e) = rw e (omega arith, omega arith, omega arith)
both_meet w (inr (inl e)) = rw e (omega arith, omega arith, omega arith)
both_meet w (inr (inr i)) = absurd i

check_continuous_range_iff_example :
    (check_continuous_range sort_grants date_of (late ∷ early ∷ []) spring_to_summer ≡ ok tt)
    ↔ (((late ∷ early ∷ []) ≢ []) × CoversRange 10 20 (late ∷ early ∷ []))
check_continuous_range_iff_example =
    check_continuous_range_iff sort_grants sort_grants-IsSortBy date_of spring_to_summer 10 20 refl
      refl (late ∷ early ∷ []) (omega arith) both_meet

abbrev scopes : List String
scopes = status_grants_create_historical ∷ status_grants_create_live ∷ []

abbrev latest_dto : GrantDto
latest_dto = record {
  from_date = "spring";
  to_date = "summer";
  type = latest;
  properties = record { re_encryption_key = "key-c"; e2e_key = "e2e" };
  recipient_id = "carol";
  owner_id = "";
  stream_id = "stream-1";
}

abbrev new_grant : Grant
new_grant = record {
  id = "grant-n";
  type = latest;
  properties = Option.some (record { re_encryption_key = "key-c"; e2e_key = "e2e" });
  recipient_id = "carol";
  owner_id = "alice";
  from_date = 10;
  to_date = 20;
  stream_id = "stream-1";
}

abbrev saved : World
unfolding save
saved = (save sample "alice" latest_dto scopes start).1

saves : save sample "alice" latest_dto scopes start ≡ (ok new_grant, saved)
unfolding save core_status.Subscribers.after_insert core_status.Cache.sadd core_status.Cache.set
    core_status.Subscribers.push_grant_to_channel_group core_status.Subscribers.join_channel
    core_status.Pubnub.subscribe_to_channel core_status.Pubnub.add_channels_to_pubnub_channel_group
    core_status.Subscribers.announce core_status.Pubnub.pubnub_publish
saves = refl

save-MaySave_example :
    MaySave sample "alice" latest_dto scopes start new_grant
    × (saved.grants ≡ start.grants ++ new_grant ∷ [])
save-MaySave_example =
    save-MaySave sample (memory_table-IsTable _) "alice" latest_dto scopes start saved new_grant
      saves

few_singletons : HasSingletons start.grants
few_singletons s o r = ground arith

save-HasSingletons_example : HasSingletons saved.grants
save-HasSingletons_example =
    save-HasSingletons sample (memory_table-IsTable _) sample-StoresGrant "alice" latest_dto scopes
      start saved new_grant few_singletons saves

abbrev deleted : World
unfolding delete
deleted = (delete sample "early" "alice" start).1

deletes : delete sample "early" "alice" start ≡ (ok early, deleted)
unfolding delete remove_from_channel_group core_status.Subscribers.leave_channel
    core_status.Pubnub.unsubscribe_from_channel
    core_status.Pubnub.remove_channels_from_pubnub_channel_group
deletes = refl

delete_removes_example :
    In early start.grants
    × (early.id ≡ "early")
    × (early.owner_id ≡ "alice")
    × (deleted.grants ≡ select (λ x. not (is_own "early" "alice" x)) start.grants)
delete_removes_example =
    delete_removes sample (memory_table-IsTable _) "early" "alice" start deleted early deletes

abbrev moved : World
unfolding modify_range
moved = (modify_range sample "early" "alice" spring_to_summer start).1

moves :
    modify_range sample "early" "alice" spring_to_summer start
    ≡ (ok (with_dates 10 20 early), moved)
unfolding modify_range
moves = refl

modify_range_changes_example :
    (old : Grant) × (from : ℕ) × (to : ℕ) × In old start.grants
    × (old.id ≡ "early")
    × (old.owner_id ≡ "alice")
    × (old.type ≡ range)
    × (sample.database_date "spring" ≡ Option.some from)
    × (sample.database_date "summer" ≡ Option.some to)
    × (with_dates 10 20 early ≡ with_dates from to old)
    × (moved.grants ≡ change (λ x. x.id === "early") (with_dates from to) start.grants)
modify_range_changes_example =
    modify_range_changes sample (memory_table-IsTable _) "early" "alice" spring_to_summer start
      moved (with_dates 10 20 early) moves
