-- ===== src/Examples/Asking.antt =====
-- What the cache holds for Bob after his request.
use core_status.Base.{String, ◌≡◌, refl, none, some, ◌===◌, ===_iff, Bool-cases, inl, inr, arith}
use core_status.Data.Json.{str}
use core_status.Cache.{build_status_update_key, built_re_encryption_per_grant_key, read_value}
use core_status.Cache.Keys.{NoColon, cache_keys_disjoint}
use core_status.Status.Read.Turns.{Reached, here}
use core_status.Status.Read.Turns.Genuine.{ReEncryptedFor, cached_is_for_reader}
use core_status.Status.Read.Turns.Sequential.{request-Reached}
use core_status.Examples.Memory.{memory_table-IsTable}
use core_status.Examples.Sample.{sample, sample-IsRedis, sample-FindsUpdates, start, morning}
use core_status.Examples.Reading.{read, reads, in_cache, spring_to_summer}

bob_plain : NoColon "bob"
bob_plain = ground arith

stream_plain : NoColon "stream-1"
stream_plain = ground arith

no_payloads : (r s id : String) → start.strings (build_status_update_key r s id) ≡ none
unfolding built_re_encryption_per_grant_key
no_payloads r s id =
    elim (Bool-cases (build_status_update_key r s id === "grant-reencryption-key:early")) [
      | inl e ↦ absurd ((cache_keys_disjoint r s id "" "early").1 ((===_iff _ _).0 e))
      | inr e ↦ rw e refl
    ]

read-Reached : Reached sample NoColon start read
read-Reached =
    request-Reached sample NoColon start "bob" "stream-1" spring_to_summer bob_plain stream_plain
      start read here reads

cached_is_for_reader_example :
    (text : String) × (str "text" ≡ read_value sample (some text))
    × ReEncryptedFor sample NoColon start "bob" "stream-1" morning.id text
cached_is_for_reader_example =
    cached_is_for_reader sample NoColon start sample-IsRedis (memory_table-IsTable _)
      sample-FindsUpdates (λ id h. h) no_payloads read read "bob" "stream-1" morning.id (str "text")
      read-Reached bob_plain stream_plain in_cache refl
