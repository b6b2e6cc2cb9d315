-- ===== src/Uploads/Handlers/Answers.antt =====
-- What uploads and downloads that fail are answered with.
use core_status.Base.{String, ◌≡◌, refl, none, some, List, [], ◌∷◌}
use core_status.Data.Errors.{ok, err, Error, pending, crashed}
use core_status.Data.Entities.{UploadEntity, lockbox}
use core_status.Data.Requests.{TokenData}
use core_status.Effects.{World, Env}
use core_status.Uploads.Request.{Emitted, file_found, raised, chunk, failed, finish}
use core_status.Uploads.Service.{
  is_own_file, upload_image_to_s3, upload_s3, get_file_by_options, new_contents, first_contents,
  get_object, get_s3, get_file_from_s3, get as get_file, upload as upload_file, update as update_of,
}
use core_status.Uploads.Handlers.{unanswered, catch_exception, upload, update}

-- What a request without a file emits: neither busboy nor the pipe fails.
abbrev pub HasNoFile : List Emitted → Type 0
HasNoFile [] = Unit
HasNoFile (file_found ∷ more) = ⊥
HasNoFile (raised e ∷ more) = ⊥
HasNoFile (failed e ∷ more) = ⊥
HasNoFile (chunk bytes ∷ more) = HasNoFile more
HasNoFile (finish ∷ more) = HasNoFile more

never_settled :
    (env : Env) (key bucket : String) (req : List Emitted) (w : World)
    → HasNoFile req
    → upload_image_to_s3 env key bucket none req w ≡ (none, w)
unfolding upload_image_to_s3
never_settled env key bucket [] w h = refl
never_settled env key bucket (file_found ∷ more) w h = absurd h
never_settled env key bucket (raised e ∷ more) w h = absurd h
never_settled env key bucket (failed e ∷ more) w h = absurd h
never_settled env key bucket (chunk bytes ∷ more) w h = never_settled env key bucket more w h
never_settled env key bucket (finish ∷ more) w h = never_settled env key bucket more w h

-- A lockbox upload whose request has no file, and does not fail, waits for a promise that is never settled: it has no
-- answer, and nothing changes.
pub upload_never_settled :
    (env : Env) (bucket key : String) (token : TokenData) (req : List Emitted) (w : World)
    → HasNoFile req
    → (upload_file env bucket key token.uuid lockbox req w ≡ (err pending, w))
      × (upload env bucket key token lockbox req w ≡ (unanswered, w))
unfolding upload upload_file first_contents upload_s3 catch_exception
upload_never_settled env bucket key token req w no_file = (
  rw (never_settled env key bucket req w no_file) refl,
  rw (never_settled env key bucket req w no_file) refl,
)

-- An update to a lockbox, of a file of the caller, whose request has no file, and does not fail, waits for a promise that
-- is never settled: it has no answer, and nothing changes.
update_never_settled :
    (env : Env) (bucket : String) (token : TokenData) (id : String) (req : List Emitted)
    (f : UploadEntity) (w : World)
    → HasNoFile req
    → env.file_table.find_one (is_own_file id token.uuid) w.files ≡ ok (some f)
    → update env bucket token id lockbox req w ≡ (unanswered, w)
unfolding update update_of new_contents get_file_by_options upload_s3 catch_exception
update_never_settled env bucket token id req f w no_file found =
    rw (found, never_settled env f.key bucket req w no_file) refl

-- The download of a lockbox file of the caller whose object S3 cannot describe ends the process.
download_crashes :
    (env : Env) (user_id id : String) (f : UploadEntity) (e : Error) (w : World)
    → env.file_table.find_one (is_own_file id user_id) w.files ≡ ok (some f)
    → f.type ≡ lockbox
    → env.s3_head f.bucket f.key w.history ≡ err e
    → get_file env user_id id w ≡ (err crashed, w)
unfolding get_file get_file_by_options get_object get_s3 get_file_from_s3
download_crashes env user_id id f e w found kept head = rw (found, kept, head) refl
