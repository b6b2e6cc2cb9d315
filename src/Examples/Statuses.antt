-- ===== src/Examples/Statuses.antt =====
-- Statuses of the sample system: a read under two grants, new statuses, removals, and the cache.
use core_status.Base.{true, arith, String, ◌≡◌, ◌≤◌, refl, none, some, List, [], ◌∷◌, In, All, inl}
use core_status.Data.Errors.{ok}
use core_status.Data.Json.{str, truthy}
use core_status.Data.Entities.{Grant}
use core_status.Data.Requests.{
  StatusDto, StatusResult, stored, TimeRangeDto, DeletedUpdate, SingleUpdateDeleteOptions,
  MassUpdateDeleteOptions,
}
use core_status.Effects.{World}
use core_status.Cache.{build_status_update_key, read_value}
use core_status.Status.Read.{Served, get_user_status_by_stream_id, re_encrypt_and_cache}
use core_status.Status.Read.Granted.{IsGrantFor, served_is_granted}
use core_status.Grants.Service.{get_by_range}
use core_status.Grants.Range.{check_continuous_range}
use core_status.Status.Read.Cached.{removed_update_still_served}
use core_status.Status.Write.{save, row_of}
use core_status.Status.Write.Checked.{OwnsStream, Answers, Grows, save-Answers}
use core_status.Status.Remove.{remove_status_update, remove_status_updates}
use core_status.Status.Remove.Wiped.{
  Owns, AreRemoved, emptied, expected, remove_status_updates_report,
}
use core_status.Examples.Memory.{memory_table-IsTable}
use core_status.Examples.Reading.{sample-FindsAll}
use core_status.Examples.Sorting.{sort_grants-IsSortBy}
use core_status.Examples.Sample.{
  sample, sample-IsRedis, start, early, morning, sample-FindsUpdates, sample-StoresStatus,
}

abbrev spring_to_summer : TimeRangeDto
spring_to_summer = record { from_date = "spring"; to_date = "summer" }

abbrev served_morning : Served
served_morning = record { update = morning; payload = str "text" }

abbrev read : World
unfolding get_user_status_by_stream_id
read = (get_user_status_by_stream_id sample "bob" "stream-1" spring_to_summer start).1

reads :
    get_user_status_by_stream_id sample "bob" "stream-1" spring_to_summer start
    ≡ (ok (served_morning ∷ []), read)
unfolding get_user_status_by_stream_id core_status.Grants.Service.get_by_range
    core_status.Grants.Range.check_continuous_range core_status.Cache.get build_status_update_key
    core_status.Pre.re_encrypt_payload core_status.Cache.set
reads = refl

served_is_granted_example :
    In morning start.updates
    × (morning.stream_id ≡ "stream-1")
    × (10 ≤ morning.recorded_at)
    × (morning.recorded_at ≤ 20)
    × ((g : Grant) × IsGrantFor "bob" "stream-1" start g
        × (g.from_date ≤ morning.recorded_at)
        × (morning.recorded_at ≤ g.to_date))
served_is_granted_example =
    served_is_granted sample sort_grants-IsSortBy (memory_table-IsTable _) "bob" "stream-1"
      spring_to_summer 10 20 refl refl sample-FindsUpdates refl refl start read
      (served_morning ∷ []) served_morning reads (inl refl)

abbrev status_of : String → String → StatusDto
status_of id stream_id = record {
  id = id;
  stream_id = stream_id;
  payload = "cipher";
  recorded_at = "spring";
  marker = record { started = none; stopped = none; frequency = none };
}

abbrev new_statuses : List StatusDto
new_statuses = status_of "update-2" "stream-1" ∷ status_of "update-3" "stream-1" ∷ []

abbrev answers : List StatusResult
answers =
    stored (row_of "alice" (status_of "update-2" "stream-1")) 40
    ∷ stored (row_of "alice" (status_of "update-3" "stream-1")) 40
    ∷ []

abbrev after_save : World
unfolding save
after_save = (save sample "alice" new_statuses start).1

saves : save sample "alice" new_statuses start ≡ (ok answers, after_save)
unfolding save core_status.Subscribers.push_to_worker
saves = refl

save-Answers_example :
    All (OwnsStream "alice" start) new_statuses
    × Answers "alice" new_statuses answers
    × Grows "alice" start after_save
save-Answers_example =
    save-Answers sample (memory_table-IsTable _) (memory_table-IsTable _) sample-StoresStatus
      "alice" new_statuses start after_save answers saves

abbrev one : SingleUpdateDeleteOptions
one = record { id = "update-1"; stream_id = "stream-1" }

abbrev two : MassUpdateDeleteOptions
two = record { ids = "update-1" ∷ "update-9" ∷ []; stream_id = "stream-1" }

abbrev answer : String → DeletedUpdate
answer comment = record { id = "update-1"; comment = comment }

abbrev report_of_two : List DeletedUpdate
report_of_two = answer "deleted" ∷ record { id = "update-9"; comment = "update not found" } ∷ []

abbrev both_removed : World
unfolding remove_status_updates
both_removed = (remove_status_updates sample "alice" two start).1

removes_two : remove_status_updates sample "alice" two start ≡ (ok report_of_two, both_removed)
unfolding remove_status_updates
removes_two = refl

remove_status_updates_report_example :
    Owns "alice" "stream-1" start
    × AreRemoved two start.updates both_removed.updates
    × (report_of_two ≡ expected "stream-1" start.updates two.ids)
remove_status_updates_report_example =
    remove_status_updates_report sample (memory_table-IsTable _) (memory_table-IsTable _) "alice"
      two start both_removed report_of_two removes_two

-- the system after Bob has read the update
abbrev cached : World
unfolding re_encrypt_and_cache
cached =
    (re_encrypt_and_cache sample (early ∷ []) (build_status_update_key "bob" "stream-1" "update-1")
      morning start).1

reads_back : cached.strings (build_status_update_key "bob" "stream-1" "update-1") ≡ some "text"
unfolding build_status_update_key cached core_status.Pre.re_encrypt_payload core_status.Cache.set
reads_back = refl

cached_row : In morning cached.updates
unfolding cached core_status.Pre.re_encrypt_payload core_status.Cache.set
cached_row = inl refl

text_filled : truthy (read_value sample (some "text")) ≡ true
unfolding read_value
text_filled = refl

abbrev cached_then_removed : World
unfolding remove_status_update
cached_then_removed = (remove_status_update sample "alice" one cached).1

removes_cached :
    remove_status_update sample "alice" one cached ≡ (ok (answer "deleted"), cached_then_removed)
unfolding remove_status_update cached core_status.Pre.re_encrypt_payload core_status.Cache.set
removes_cached = refl

abbrev still_there : Served
still_there = record { update = emptied morning; payload = read_value sample (some "text") }

still_served :
    get_user_status_by_stream_id sample "bob" "stream-1" spring_to_summer cached_then_removed
    ≡ (ok (record { update = emptied morning; payload = str "text" } ∷ []), cached_then_removed)
unfolding get_user_status_by_stream_id core_status.Grants.Service.get_by_range
    core_status.Grants.Range.check_continuous_range core_status.Cache.get build_status_update_key
    core_status.Pre.re_encrypt_payload core_status.Cache.set remove_status_update cached
still_served = refl

removed_update_still_served_example :
    In still_there (record { update = emptied morning; payload = str "text" } ∷ [])
removed_update_still_served_example =
    removed_update_still_served sample sample-IsRedis (memory_table-IsTable _)
      (memory_table-IsTable _) (memory_table-IsTable _) sample-FindsAll "alice" "bob" "text" one
      spring_to_summer 10 20 cached cached_then_removed cached_then_removed (answer "deleted")
      morning (record { update = emptied morning; payload = str "text" } ∷ []) removes_cached
      cached_row refl refl refl refl refl (omega arith) (omega arith) reads_back text_filled
      still_served
