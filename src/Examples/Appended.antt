-- ===== src/Examples/Appended.antt =====
-- Two statuses that Alice appends and Bob is then answered with.
use core_status.Base.{String, ◌≡◌, refl, none, some, false, List, [], ◌∷◌, In, inl, inr, arith}
use core_status.Data.Errors.{ok}
use core_status.Data.Json.{str}
use core_status.Data.Entities.{Update}
use core_status.Data.Requests.{StatusDto, StatusResult, stored, TimeRangeDto}
use core_status.Effects.{World}
use core_status.Cache.{build_status_update_key}
use core_status.Status.Read.{Served, get_user_status_by_stream_id}
use core_status.Status.Write.{save, row_of}
use core_status.Status.Write.Served.{HoldsStatus, StoresColumns, saved_is_served}
use core_status.Examples.Memory.{memory_table-IsTable}
use core_status.Examples.Sorting.{sort_grants-IsSortBy}
use core_status.Examples.Reading.{sample-FindsAll}
use core_status.Examples.Sample.{sample, start, morning, sample-FindsUpdates, sample-StoresStatus}

abbrev spring_to_summer : TimeRangeDto
spring_to_summer = record { from_date = "spring"; to_date = "summer" }

abbrev status_of : String → StatusDto
status_of id = record {
  id = id;
  stream_id = "stream-1";
  payload = "cipher";
  recorded_at = "spring";
  marker = record { started = none; stopped = none; frequency = none };
}

abbrev two : List StatusDto
two = status_of "update-2" ∷ status_of "update-3" ∷ []

abbrev answers : List StatusResult
answers =
    stored (row_of "alice" (status_of "update-2")) 40
    ∷ stored (row_of "alice" (status_of "update-3")) 40
    ∷ []

abbrev after_save : World
unfolding save
after_save = (save sample "alice" two start).1

saves : save sample "alice" two start ≡ (ok answers, after_save)
unfolding save core_status.Subscribers.push_to_worker
saves = refl

abbrev row : String → Update
row id = record {
  id = id;
  user_id = "alice";
  stream_id = "stream-1";
  payload = some "cipher";
  recorded_at = 10;
  uploaded_at = 40;
  marker = record { started = none; stopped = none; frequency = none; deleted = some false };
}

abbrev served : Update → Served
served u = record { update = u; payload = str "text" }

abbrev answer : List Served
answer = served morning ∷ served (row "update-2") ∷ served (row "update-3") ∷ []

abbrev after_read : World
unfolding get_user_status_by_stream_id
after_read = (get_user_status_by_stream_id sample "bob" "stream-1" spring_to_summer after_save).1

reads :
    get_user_status_by_stream_id sample "bob" "stream-1" spring_to_summer after_save
    ≡ (ok answer, after_read)
unfolding get_user_status_by_stream_id core_status.Grants.Service.get_by_range
    core_status.Grants.Range.check_continuous_range core_status.Cache.get build_status_update_key
    core_status.Pre.re_encrypt_payload core_status.Cache.set save
    core_status.Subscribers.push_to_worker
reads = refl

sample-StoresColumns : StoresColumns sample
sample-StoresColumns row rows rows' u h =
    (ground arith, ground arith, ground arith, λ time read. ground arith)

saved_is_served_example :
    (y : Served) × In y answer × HoldsStatus sample (status_of "update-3") y.update
saved_is_served_example =
    saved_is_served sample (memory_table-IsTable _) sample-StoresStatus sample-StoresColumns
      sort_grants-IsSortBy (memory_table-IsTable _) sample-FindsUpdates sample-FindsAll "alice"
      "bob" two (status_of "update-3") 40 10 spring_to_summer 10 20 start after_save after_read
      answers answer saves (inr (inl (refl, refl))) refl refl refl refl refl (omega arith)
      (omega arith) reads
