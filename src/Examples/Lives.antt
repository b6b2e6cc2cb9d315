-- ===== src/Examples/Lives.antt =====
-- The life of one status of the sample system: its append and its removal.
use core_status.Base.{◌≡◌, ◌&&◌, refl, none, List, [], ◌∷◌, ◌===◌, includes, if◌then◌else◌}
use core_status.Data.Errors.{ok}
use core_status.Data.Requests.{
  StatusDto, DeletedUpdate, SingleUpdateDeleteOptions, MassUpdateDeleteOptions,
}
use core_status.Effects.{World}
use core_status.Status.Write.{save}
use core_status.Status.Remove.{remove_status_update, remove_status_updates}
use core_status.Status.Lifecycle.{state_of, removed, Steps, no_step, then_step, appends, removes}
use core_status.Status.Lifecycle.Removals.{remove_status_updates_refines}
use core_status.Examples.Memory.{memory_table-IsTable}
use core_status.Examples.Sample.{sample, start}

abbrev evening : StatusDto
evening = record {
  id = "update-2";
  stream_id = "stream-1";
  payload = "cipher";
  recorded_at = "summer";
  marker = record { started = none; stopped = none; frequency = none };
}

abbrev of_evening : SingleUpdateDeleteOptions
of_evening = record { id = "update-2"; stream_id = "stream-1" }

abbrev appended : World
unfolding save
appended = (save sample "alice" (evening ∷ []) start).1

abbrev lived : World
unfolding remove_status_update
lived = (remove_status_update sample "alice" of_evening appended).1

life : Steps sample start lived
unfolding appended save remove_status_update lived
life =
    then_step (then_step no_step (appends "alice" (evening ∷ []) start))
      (removes "alice" of_evening appended)

abbrev of_two : MassUpdateDeleteOptions
of_two = record { ids = "update-1" ∷ "update-9" ∷ []; stream_id = "stream-1" }

abbrev two_answers : List DeletedUpdate
two_answers =
    record { id = "update-1"; comment = "deleted" }
    ∷ record { id = "update-9"; comment = "update not found" }
    ∷ []

abbrev cleared : World
unfolding remove_status_updates
cleared = (remove_status_updates sample "alice" of_two start).1

clears : remove_status_updates sample "alice" of_two start ≡ (ok two_answers, cleared)
unfolding remove_status_updates
clears = refl

remove_status_updates_refines_example : state_of cleared.updates "stream-1" "update-1" ≡ (
    if includes of_two.ids "update-1" && "stream-1" === of_two.stream_id
    then removed (state_of start.updates "stream-1" "update-1")
    else state_of start.updates "stream-1" "update-1")
remove_status_updates_refines_example =
    remove_status_updates_refines sample (memory_table-IsTable _) (memory_table-IsTable _) "alice"
      of_two start cleared two_answers clears "stream-1" "update-1"
