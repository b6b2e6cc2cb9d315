-- ===== src/Examples/Streams.antt =====
-- Streams and stream types of the sample system.
use core_status.Base.{
  String, ◌≡◌, ◌⊎◌, refl, Bool, true, false, some, none, List, [], ◌∷◌, ◌++◌, ◌===◌, if◌then◌else◌,
}
use core_status.Data.Errors.{Error, ok, err, http, not_found, internal_server_error, error_code}
use core_status.Data.Json.{Json}
use core_status.Data.Messages.{http_call}
use core_status.Data.Entities.{Stream, StreamType, range}
use core_status.Data.Requests.{StreamTypeDto, CreateStreamRequestBody}
use core_status.Effects.{World}
use core_status.Clients.Keystore.{key_body, post}
use core_status.Clients.Tokens.{authorized}
use core_status.Streams.{pg_unique_constraint_violation, validate, save_type, stream_keys, create}
use core_status.Streams.Laws.{HasType, validate_decides, save_type_outcomes, create_stores}
use core_status.Examples.Memory.{memory_table-IsTable}
use core_status.Examples.Sample.{sample, start}

validate_decides_example :
    (((validate sample true "walk" start ≡ (ok true, start))
        × (validate sample false "walk" start ≡ (err (http 409 "stream already exists"), start))
        × HasType "walk" start)
      ⊎ ((validate sample true "walk" start ≡ (err (not_found "stream type not found"), start))
          × (validate sample false "walk" start ≡ (ok true, start))
          × (HasType "walk" start → ⊥)))
    ⊎ ((e : Error) × (sample.stream_type_table.find_one (λ t. t.type === "walk") start.stream_types
          ≡ err e)
        × ((b : Bool) → validate sample b "walk" start ≡ (err internal_server_error, start)))
validate_decides_example = validate_decides sample (memory_table-IsTable _) "walk" start

abbrev run : StreamTypeDto
run = record {
  granularity = "single";
  stream_handling = "lockbox";
  approximated = false;
  supported_grants = range ∷ [];
  type = "run";
}

save_type_outcomes_example :
    ((t : StreamType) × (save_type sample run start
        ≡ (ok (some t), record start { stream_types = start.stream_types ++ t ∷ [] })))
    ⊎ ((e : Error) × (sample.stream_type_table.insert run start.stream_types ≡ err e)
        × (save_type sample run start ≡ (
            if error_code e === pg_unique_constraint_violation
            then (err (http 409 "type exists"), start)
            else (ok none, start))))
save_type_outcomes_example = save_type_outcomes sample (memory_table-IsTable _) run start

abbrev body : CreateStreamRequestBody
body = record { stream_type = "walk"; encrypted_private_key = "private"; public_key = "public" }

abbrev new_stream : Stream
new_stream = record {
  id = "stream-n";
  owner_id = "carol";
  keypair_id = "keys";
  device_id = "phone";
  type = "walk";
}

abbrev created : World
unfolding create
created = (create sample "carol" "token" body start).1

creates : create sample "carol" "token" body start ≡ (ok new_stream, created)
unfolding create
creates = refl

create_stores_example :
    (answer : Json) × (keypair_id : String) × (device_id : String) × (rows : List Stream)
    × (sample.http_answer
          (authorized "token" (post sample "/v1/identity/me/keys" (key_body (stream_keys body))))
          (start.history
            ++ http_call (
                authorized "token"
                  (post sample "/v1/identity/me/keys" (key_body (stream_keys body))))
              ∷ [])
        ≡ ok answer)
    × (sample.read_key_pair answer ≡ ok (keypair_id, device_id))
    × (sample.stream_table.insert
          (record {
            type = "walk";
            owner_id = "carol";
            keypair_id = keypair_id;
            device_id = device_id;
          })
          start.streams
        ≡ ok (new_stream, rows))
    × (created.streams ≡ start.streams ++ new_stream ∷ [])
    × (created.history
        ≡ start.history
          ++ http_call (
              authorized "token" (post sample "/v1/identity/me/keys" (key_body (stream_keys body))))
            ∷ [])
create_stores_example =
    create_stores sample (memory_table-IsTable _) "carol" "token" body start created new_stream refl
      creates
