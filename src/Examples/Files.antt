-- ===== src/Examples/Files.antt =====
-- Files of the sample system: uploads, downloads and deletions.
use core_status.Base.{
  ℕ, ◌≡◌, ◌+◌, refl, none, some, List, [], ◌∷◌, ◌++◌, In, change, ◌===◌, if◌then◌else◌, zero, suc,
  ◌-◌, ◌<◌, ◌↔◌, Option, ltb, arith,
}
use core_status.Data.Errors.{Error, Result, ok, err, failure, pending}
use core_status.Data.Entities.{UploadEntity, lockbox}
use core_status.Effects.{World}
use core_status.Uploads.Request.{Emitted, finish}
use core_status.Uploads.Request.Extracted.{with_file}
use core_status.Uploads.Stream.{ranges}
use core_status.Uploads.Stream.Ranges.{Tiles, start_of, ranges_tile}
use core_status.Uploads.Stream.{download}
use core_status.Uploads.Stream.Download.{ServesRanges, first_bytes, bytes_after, download_whole}
use core_status.Uploads.Handlers as Handlers
use core_status.Uploads.Handlers.{unanswered}
use core_status.Uploads.Handlers.Answers.{upload_never_settled}
use core_status.Data.Requests.{TokenData}
use core_status.Uploads.Service.{update, upload, new_file}
use core_status.Uploads.Service.Fresh.{upload_stores}
use core_status.Uploads.Service.Storage.{KeptBy}
use core_status.Data.Messages.{Effect, send_upload}
use core_status.Uploads.Service.Storage.{IsStored, update-IsStored}
use core_status.Examples.Memory.{memory_table-IsTable}
use core_status.Examples.Sample.{sample, start, note}

ranges_tile_example :
    (rs : List (ℕ × ℕ)) × (ranges 102 (start_of 0 9 100) ≡ some rs) × Tiles 9 100 0 rs
ranges_tile_example = ranges_tile 9 100

abbrev request : List Emitted
request = with_file ((7 ∷ []) ∷ [])

abbrev moved_note : UploadEntity
moved_note = record note {
  bucket = some "bucket";
  etag = some "tag";
  location = some "there";
  bytes = none;
  type = lockbox;
}

abbrev updated : World
unfolding update
updated = (update sample "bucket" "alice" "file-1" lockbox request start).1

updates : update sample "bucket" "alice" "file-1" lockbox request start ≡ (ok moved_note, updated)
unfolding update
updates = refl

update-IsStored_example :
    (old : UploadEntity) × (new : UploadEntity) × In old start.files
    × (old.id ≡ "file-1")
    × (old.user_id ≡ "alice")
    × IsStored new
    × (new.type ≡ lockbox)
    × (new.id ≡ old.id)
    × (new.key ≡ old.key)
    × (new.user_id ≡ "alice")
    × (updated.files ≡ change (λ x. x.id === "file-1") (λ x. new) start.files)
update-IsStored_example =
    update-IsStored sample (memory_table-IsTable _) "bucket" "alice" "file-1" lockbox request start
      updated moved_note updates

-- an object of five bytes
abbrev five : List ℕ
five = 1 ∷ 2 ∷ 3 ∷ 4 ∷ 5 ∷ []

abbrev five_object : ℕ → ℕ → Result (List ℕ)
five_object from to =
    if ltb from 5
    then ok (first_bytes (to + 1 - from) (bytes_after from five))
    else err (failure "InvalidRange" "The requested range is not satisfiable")

five_object-ServesRanges : ServesRanges five five_object
five_object-ServesRanges = record {
  within = λ from to h. ground arith;
  behind =
      λ from to h. (failure "InvalidRange" "The requested range is not satisfiable", ground arith);
}

download_whole_example :
    (end : Option Error) × (download five_object 4 (start_of 0 1 5) ≡ some (five, end))
    × ((end ≡ none) ↔ (0 < 1))
download_whole_example =
    download_whole five five_object five_object-ServesRanges 1 2 1 refl (omega arith)

abbrev alice : TokenData
alice = record { uuid = "alice"; sub = "alice"; scopes = [] }

-- 2049 bytes, one after the other doubled
abbrev doubled : ℕ → List ℕ
doubled zero = 1 ∷ []
doubled (suc n) = let half = doubled n in half ++ half

-- a system whose object store does not answer, with a lockbox file
upload_never_settled_example :
    (upload sample "bucket" "key" "alice" lockbox (finish ∷ []) start ≡ (err pending, start))
    × (Handlers.upload sample "bucket" "key" alice lockbox (finish ∷ []) start
        ≡ (unanswered, start))
upload_never_settled_example =
    upload_never_settled sample "bucket" "key" alice (finish ∷ []) start tt

abbrev uploaded_picture : UploadEntity
uploaded_picture = record (new_file "picture" "alice" lockbox) {
  bucket = some "bucket";
  etag = some "tag";
  location = some "there";
}

abbrev uploaded : World
unfolding upload
uploaded = (upload sample "bucket" "picture" "alice" lockbox request start).1

uploads :
    upload sample "bucket" "picture" "alice" lockbox request start ≡ (ok uploaded_picture, uploaded)
unfolding upload
uploads = refl

upload_stores_example :
    (file : UploadEntity) × (row : UploadEntity) × (rows : List UploadEntity) × (before : List
      Effect)
    × KeptBy lockbox file
    × (file.key ≡ "picture")
    × (file.user_id ≡ "alice")
    × (file.type ≡ lockbox)
    × (sample.file_table.insert file start.files ≡ ok (row, rows))
    × (uploaded_picture ≡ record row { bytes = none })
    × (uploaded.files ≡ start.files ++ row ∷ [])
    × (uploaded.history ≡ before ++ send_upload uploaded_picture ∷ [])
upload_stores_example =
    upload_stores sample (memory_table-IsTable _) "bucket" "picture" "alice" lockbox request start
      uploaded uploaded_picture uploads
