-- ===== src/Examples/Turns.antt =====
-- Two grants of a stream, whose calls cross: the second reads and sends first.
use mathlib.Core.List.{Perm}
use core_status.Base.{String, ◌≡◌, ◌≤◌, ◌*◌, ◌⊎◌, refl, some, List, [], ◌∷◌, ◌++◌, All, length}
use core_status.Data.Errors.{ok}
use core_status.Data.Json.{Json, str, obj, field, end}
use core_status.Data.Messages.{Effect, StatusUpdateDto}
use core_status.Effects.{World}
use core_status.Worker.Fanout.{messages}
use core_status.Worker.Turns.{
  Keyed, Calls, started, keyed, finished, Turn, reads, sends, Turns, here, later, at_start,
  read_key, send_for,
}
use core_status.Worker.Turns.AnyOrder.{any_order}
use core_status.Examples.Sample.{sample, start}

abbrev new_status : StatusUpdateDto
new_status = record {
  id = "update-2";
  stream_id = "stream-1";
  user_id = "alice";
  recorded_at = "spring";
  payload = "cipher";
}

abbrev cached : String → String → Json
cached id recipient_id = obj (field "id" (str id) (field "recipient_id" (str recipient_id) end))

abbrev for_bob : Json
for_bob = cached "early" "bob"

abbrev for_carol : Json
for_carol = cached "late" "carol"

abbrev w : World
w = record start { strings = λ key. some "key" }

abbrev key_of : String → String → Keyed
key_of id recipient_id = ((some (str id), some (str recipient_id)), str "key")

reads_bob : read_key sample for_bob w ≡ (ok (key_of "early" "bob"), w)
unfolding read_key core_status.Cache.get
reads_bob = refl

reads_carol : read_key sample for_carol w ≡ (ok (key_of "late" "carol"), w)
unfolding read_key core_status.Cache.get
reads_carol = refl

abbrev told_carol : World
unfolding send_for
told_carol = (send_for sample new_status (key_of "late" "carol") w).1

abbrev told_both : World
unfolding send_for
told_both = (send_for sample new_status (key_of "early" "bob") told_carol).1

tells_carol : send_for sample new_status (key_of "late" "carol") w ≡ (ok tt, told_carol)
unfolding send_for
tells_carol = refl

tells_both : send_for sample new_status (key_of "early" "bob") told_carol ≡ (ok tt, told_both)
unfolding send_for
tells_both = refl

abbrev at_end : Calls
at_end = record { calls = finished ∷ finished ∷ []; world = told_both }

crossing : Turns sample new_status (at_start (for_bob ∷ for_carol ∷ []) w) 4 at_end
crossing =
    later
      (later
        (later (later here (reads [] (started for_carol ∷ []) for_bob _ w refl reads_bob refl))
          (reads (keyed (key_of "early" "bob") ∷ []) [] for_carol _ w refl reads_carol refl))
        (sends (keyed (key_of "early" "bob") ∷ []) [] (key_of "late" "carol") _ told_carol refl
          tells_carol refl))
      (sends [] (finished ∷ []) (key_of "early" "bob") _ told_both refl tells_both refl)

any_order_example :
    (4 ≤ 2 * length (for_bob ∷ for_carol ∷ []))
    × (((u : Calls) × Turn sample new_status at_end u)
        ⊎ (All (λ c. c ≡ finished) (finished ∷ finished ∷ [])
            × ((sent : List Effect) × (told_both ≡ record w { history = w.history ++ sent })
                × Perm sent (messages sample new_status w.strings (for_bob ∷ for_carol ∷ [])))))
any_order_example =
    any_order sample new_status w ((λ key. refl), (λ e h. refl)) (for_bob ∷ for_carol ∷ []) 4 at_end
      crossing
