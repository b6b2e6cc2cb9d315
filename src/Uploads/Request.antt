-- ===== src/Uploads/Request.antt =====
-- `extractFileFromRequest`: the file of a request as busboy hands it over, chunk by chunk.
pub mod Extracted
use core_status.Base.{
  ℕ, String, Bool, true, false, Option, none, some, List, [], ◌∷◌, ◌++◌, length, ltb, if◌then◌else◌,
  ◌*◌,
}
use core_status.Data.Errors.{Error, Result, ok, err, failure, pending}

-- `MAX_DB_FILE_SIZE`
abbrev pub max_db_file_size : ℕ
max_db_file_size = 2 * 1024

-- what busboy and the file's stream emit, and a call of busboy or of `req.pipe` that throws
pub data Emitted : Type 0 where
  file_found : Emitted
  chunk : List ℕ → Emitted
  failed : Error → Emitted
  raised : Error → Emitted
  finish : Emitted

abbrev pub too_long : Error
too_long = failure "" "file is to long for this type"

abbrev pub no_file : Error
no_file = failure "" "upload must be valid file"

-- A promise is settled by the first `resolve` or `reject`; `none` is pending.
abbrev pub Promise : Type 0 → Type 0
Promise A = Option (Result A)

abbrev pub settle : {A : Type 0} → Promise A → Result A → Promise A
settle none r = some r
settle (some s) r = some s

-- awaiting a promise
abbrev pub await : {A : Type 0} → Promise A → Result A
await none = err pending
await (some r) = r

-- `Buffer.concat([fileData, data])`, where null is no data yet
abbrev pub append_data : Option (List ℕ) → List ℕ → List ℕ
append_data none bytes = bytes
append_data (some old) bytes = old ++ bytes

abbrev pub check_length : Promise (List ℕ) → List ℕ → Promise (List ℕ)
check_length p bytes = if ltb max_db_file_size (length bytes) then settle p (err too_long) else p

abbrev pub resolve_file : Promise (List ℕ) → Option (List ℕ) → Promise (List ℕ)
resolve_file p none = settle p (err no_file)
resolve_file p (some bytes) = settle p (ok bytes)

-- the listeners, one after the other over what is emitted
unfoldable pub receive : Option (List ℕ) → Promise (List ℕ) → List Emitted → Promise (List ℕ)
receive file_data p [] = p
receive file_data p (chunk bytes ∷ more) =
    receive (some (append_data file_data bytes)) (check_length p (append_data file_data bytes)) more
receive file_data p (file_found ∷ more) = receive file_data p more
receive file_data p (raised e ∷ more) = receive file_data (settle p (err e)) more
receive file_data p (failed e ∷ more) = receive file_data (settle p (err e)) more
receive file_data p (finish ∷ more) = receive file_data (resolve_file p file_data) more

unfoldable pub extract_file_from_request : List Emitted → Promise (List ℕ)
unfolding receive
extract_file_from_request emitted = receive none none emitted
