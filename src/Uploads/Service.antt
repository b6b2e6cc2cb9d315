-- ===== src/Uploads/Service.antt =====
-- The operations of `UploadService` on the table of files and on S3, with those of `UploadRepository`.
-- `Promise.allSettled` is modelled as one call after the other.
pub mod Storage
pub mod Deletion
pub mod Fresh
use core_status.Base.{
  ℕ, String, Bool, true, false, not, ◌&&◌, Option, none, some, List, [], ◌∷◌, ◌++◌, ◌===◌,
  if◌then◌else◌,
}
use core_status.Data.Errors.{
  Error, Result, ok, err, failure, crashed, bad_request, not_found, error_message,
}
use core_status.Data.Entities.{UploadEntity, PayloadType, lockbox, content}
use core_status.Data.Requests.{ImageResponseDto}
use core_status.Data.Messages.{s3_upload, s3_delete}
use core_status.Publishers.{publish_upload_update}
use core_status.Effects.{
  World, Env, M, pure, throw, ◌>>=◌, ◌>>◌, catch, query, commit, call, all_settled,
}
use core_status.Uploads.Request.{
  Emitted, file_found, raised, chunk, failed, finish, Promise, settle, await,
  extract_file_from_request,
}
use core_status.Uploads.Stream.{ReadState, s3_read_chunk_size}

abbrev pub is_lockbox : PayloadType → Bool
is_lockbox lockbox = true
is_lockbox content = false

-- `String(bucket)` of a nullable column in the parameters of S3
abbrev pub column_text : Option String → String
column_text none = "null"
column_text (some s) = s

abbrev found_file : Option UploadEntity → M UploadEntity
found_file none = throw (not_found "file not found")
found_file (some f) = pure f

abbrev pub is_own_file : String → String → UploadEntity → Bool
is_own_file id user_id f = f.id === id && f.user_id === user_id

-- `getFileByOptions` with the id and the user as its condition
unfoldable pub get_file_by_options : Env → String → String → M UploadEntity
get_file_by_options env id user_id = do
  file ← query (λ w. env.file_table.find_one (is_own_file id user_id) w.files)
  found_file file

-- `getFileById`: its options are not passed on to `findOne`.
unfoldable pub get_file_by_id : Env → String → M UploadEntity
get_file_by_id env id = do
  file ← query (λ w. env.file_table.find_one (λ f. f.id === id) w.files)
  found_file file

-- `saveFile` of a new file: what it returns has no `data`.
unfoldable pub insert_file : Env → UploadEntity → M UploadEntity
insert_file env file = do
  saved ← λ w. commit (env.file_table.insert file w.files) (λ rows. record w { files = rows }) w
  pure (record saved { bytes = none })

-- `saveFile` of a file that is in the table
unfoldable pub update_file : Env → UploadEntity → M UploadEntity
update_file env file = do
  hit ← λ w.
      commit (env.file_table.update (λ f. f.id === file.id) (λ f. file) w.files)
        (λ rows. record w { files = rows }) w
  pure (record file { bytes = none })

unfoldable pub delete_file : Env → String → M (List UploadEntity)
delete_file env id w =
    commit (env.file_table.remove (λ f. f.id === id) w.files) (λ rows. record w { files = rows }) w

-- `uploadImageToS3`: each file of the request is uploaded, and the first callback settles the promise. The
-- callbacks of one file are taken to come before the next file. No listener settles it when the request ends;
-- and an error that busboy emits has no listener, so it ends the process, once what was settled before is passed on.
abbrev pub called_back :
    Promise ImageResponseDto → List (Result ImageResponseDto) → Promise ImageResponseDto
called_back p [] = p
called_back p (r ∷ rs) = called_back (settle p r) rs

abbrev pub start_upload : String → String → World → World
start_upload key bucket w = record w { history = w.history ++ s3_upload key bucket ∷ [] }

unfoldable pub upload_image_to_s3 :
    Env
    → String
    → String
    → Promise ImageResponseDto
    → List Emitted
    → World
    → Promise ImageResponseDto × World
upload_image_to_s3 env key bucket p [] w = (p, w)
upload_image_to_s3 env key bucket p (file_found ∷ more) w =
    upload_image_to_s3 env key bucket (called_back p (env.s3_upload key bucket w.history)) more
      (start_upload key bucket w)
upload_image_to_s3 env key bucket p (raised e ∷ more) w =
    upload_image_to_s3 env key bucket (settle p (err e)) more w
upload_image_to_s3 env key bucket p (chunk bytes ∷ more) w =
    upload_image_to_s3 env key bucket p more w
upload_image_to_s3 env key bucket p (failed e ∷ more) w = (settle p (err crashed), w)
upload_image_to_s3 env key bucket p (finish ∷ more) w = upload_image_to_s3 env key bucket p more w

unfoldable pub upload_s3 : Env → List Emitted → String → String → M ImageResponseDto
unfolding upload_image_to_s3
upload_s3 env req key bucket w =
    let (p, w') = upload_image_to_s3 env key bucket none req w in (await p, w')

unfoldable pub delete_s3 : Env → String → Option String → M (Unit {0})
delete_s3 env key bucket = call env (s3_delete key (column_text bucket))

-- `getFileFromS3`: what the callback of `headObject` throws is caught by nothing.
unfoldable pub get_file_from_s3 : Result ℕ → Promise ReadState
get_file_from_s3 (ok content_length) =
    some (ok (record { curr_pos = 0; chunk_size = s3_read_chunk_size; max_len = content_length }))
get_file_from_s3 (err e) = some (err crashed)

unfoldable pub get_s3 : Env → Option String → String → M ReadState
unfolding get_file_from_s3
get_s3 env bucket filename =
    query (λ w. await (get_file_from_s3 (env.s3_head bucket filename w.history)))

-- where the bytes of a download come from
pub data Source : Type 0 where
  row : Option (List ℕ) → Source
  object : Option String → String → ReadState → Source

unfoldable pub get_object : Env → UploadEntity → M Source
unfolding get_s3
get_object env file = do
  stream ← get_s3 env file.bucket file.key
  pure (object file.bucket file.key stream)

unfoldable pub get : Env → String → String → M Source
unfolding get_file_by_options get_object
get env user_id id = do
  file ← get_file_by_options env id user_id
  if is_lockbox file.type then get_object env file else pure (row file.bytes)

-- the file of a lockbox upload, and the file of a content upload
abbrev pub in_bucket : UploadEntity → ImageResponseDto → UploadEntity
in_bucket file up = record file {
  bucket = some up.bucket;
  etag = some up.etag;
  location = some up.location;
  bytes = none;
}

abbrev pub in_row : UploadEntity → List ℕ → UploadEntity
in_row file bytes = record file { bytes = some bytes; etag = none; location = none; bucket = none }

-- A failed deletion of the old object is logged and dropped.
unfoldable pub drop_object : Env → UploadEntity → M (Unit {0})
unfolding delete_s3
drop_object env file =
    if is_lockbox file.type
    then catch (delete_s3 env file.key file.bucket) (λ e. pure tt)
    else pure tt

unfoldable pub new_contents :
    Env → String → PayloadType → List Emitted → UploadEntity → M UploadEntity
unfolding upload_s3 drop_object
new_contents env bucket lockbox req file = do
  uploaded ← upload_s3 env req file.key bucket
  pure (in_bucket file uploaded)
new_contents env bucket content req file = do
  bytes ← query (λ w. await (extract_file_from_request req))
  drop_object env file
  pure (in_row file bytes)

unfoldable pub update : Env → String → String → String → PayloadType → List Emitted → M UploadEntity
unfolding get_file_by_options new_contents update_file
update env bucket user_id id payload_type req = do
  file ← catch (get_file_by_options env id user_id) (λ e. throw (not_found "file not found"))
  changed ← new_contents env bucket payload_type req file
  update_file env (record changed { type = payload_type; user_id = user_id })

-- `new UploadEntity()` with its key, type and user
abbrev pub new_file : String → String → PayloadType → UploadEntity
new_file key user_id type = record {
  id = "";
  key = key;
  location = none;
  bucket = none;
  etag = none;
  type = type;
  bytes = none;
  created_at = 0;
  updated_at = 0;
  user_id = user_id;
}

-- the `catch` round `extractFileFromRequest` in `upload`
unfoldable pub upload_failed : Error → M (List ℕ)
upload_failed e =
    if error_message e === "file is to long for this type"
    then throw (bad_request "file is to long for this type")
    else throw e

unfoldable pub first_contents :
    Env → String → PayloadType → List Emitted → UploadEntity → M UploadEntity
unfolding upload_s3 upload_failed
first_contents env bucket lockbox req file = do
  uploaded ← upload_s3 env req file.key bucket
  pure (in_bucket file uploaded)
first_contents env bucket content req file = do
  bytes ← catch (query (λ w. await (extract_file_from_request req))) upload_failed
  pure (in_row file bytes)

-- `upload`, under the key that it makes of the day and a fresh uuid
unfoldable pub upload : Env → String → String → String → PayloadType → List Emitted → M UploadEntity
unfolding first_contents insert_file
upload env bucket key user_id payload_type req = do
  file ← first_contents env bucket payload_type req (new_file key user_id payload_type)
  result ← insert_file env file
  publish_upload_update env result
  pure result

unfoldable pub delete : Env → String → String → M UploadEntity
unfolding get_file_by_id delete_s3 delete_file
delete env user_id id = do
  file ← get_file_by_id env id
  if is_lockbox file.type then delete_s3 env file.key file.bucket else pure tt
  gone ← delete_file env file.id
  pure file

-- `deleteManyFromS3`: what is fulfilled; a file that is not a lockbox is left alone, and a failure is dropped.
abbrev pub delete_object : Env → UploadEntity → M (Unit {0})
delete_object env file =
    if is_lockbox file.type then delete_s3 env file.key file.bucket else pure tt

abbrev pub fulfilled : {A : Type 0} → List (Result A) → List A
fulfilled [] = []
fulfilled (ok a ∷ rs) = a ∷ fulfilled rs
fulfilled (err e ∷ rs) = fulfilled rs

unfoldable pub delete_many_from_s3 : Env → List UploadEntity → World → List (Unit {0}) × World
unfolding delete_s3
delete_many_from_s3 env files w =
    let (rs, w') = all_settled (delete_object env) files w in (fulfilled rs, w')

-- `deleted` and `notDeleted`, the files and the messages
abbrev pub Deletions : Type 0
Deletions = List UploadEntity × List String

abbrev pub add_outcome : Result UploadEntity → Deletions → Deletions
add_outcome (ok f) (deleted, not_deleted) = (f ∷ deleted, not_deleted)
add_outcome (err e) (deleted, not_deleted) = (deleted, error_message e ∷ not_deleted)

unfoldable pub collect : List (Result UploadEntity) → Deletions
collect [] = ([], [])
collect (r ∷ rs) = add_outcome r (collect rs)

unfoldable pub delete_many : Env → String → List String → World → Deletions × World
unfolding collect
delete_many env user_id ids w =
    let (rs, w') = all_settled (delete env user_id) ids w in (collect rs, w')
