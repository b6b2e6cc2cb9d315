-- ===== src/Resources/Wrapped.antt =====
-- What a resource's requests are answered with where the database fails.
use core_status.Base.{Option, none, some, List, [], ◌∷◌, length, if◌then◌else◌}
use core_status.Data.Json.{Json, Fields, num, arr, obj, field, end}
use core_status.Query.Options.{Query}
use core_status.Resources.{
  Thrown, Settled, resolved, rejected, Response, data_of, errors_of, items, given,
}

-- the answer to a failure of the database, by its error
abbrev pub failure_answer : Thrown → Response
failure_answer thrown =
    if thrown.derived
    then errors_of 500
        (record { status = 500; title = given thrown.name; detail = given thrown.message } ∷ [])
    else data_of (obj (field "data" (obj end) end))

-- the answer to what the database settles with, by the JSON of what it returns
abbrev pub settled_answer : {A : Type 0} → (A → Json) → Settled A → Response
settled_answer json (resolved found) = data_of (json found)
settled_answer json (rejected thrown) = failure_answer thrown

-- rows with how many they are, and one row, or an empty object where there is none
abbrev pub listing_json : List Fields → Json
listing_json entities = obj (
    field "data" (arr (items entities)) (
      field "meta"
        (obj (field "count" (num (length entities)) (field "total" (num (length entities)) end)))
        end))

abbrev pub row_json : Option Fields → Json
row_json none = obj (field "data" (obj end) end)
row_json (some entity) = obj (field "data" (obj entity) end)

-- the answer to a row that is saved, with the table after it
abbrev pub saved_answer : List Fields → Settled (Fields × List Fields) → Response × List Fields
saved_answer table (resolved (entity, table')) = (data_of (row_json (some entity)), table')
saved_answer table (rejected thrown) = (failure_answer thrown, table)
