-- ===== src/Uploads/Handlers.antt =====
-- The handlers of `UploadsController` (src/products/controllers/uploads.controller.ts) behind their exception filter
-- (src/products/util/upload-exception-filter.ts). The token's signature, and the validation of bodies and
-- parameters, are left to the framework.
pub mod Answers
use core_status.Base.{ℕ, String, List, ◌===◌, if◌then◌else◌}
use core_status.Data.Errors.{Error, http, response, failure, pending, crashed, Result, ok, err}
use core_status.Data.Entities.{UploadEntity, PayloadType}
use core_status.Data.Requests.{TokenData}
use core_status.Effects.{World, Env, M}
use core_status.Uploads.Request.{Emitted}
use core_status.Uploads.Service.{
  Source, Deletions, get as get_file, upload as upload_file, update as update_of, delete_many,
}

-- what a request is answered with: a value, or a status and a message; or no answer ever comes, since a promise is never
-- settled or the process has ended
pub data Answer (A : Type 0) : Type 0 where
  answered : A → Answer A
  refused : ℕ → String → Answer A
  unanswered : Answer A

abbrev pub message_to_apply : String → String
message_to_apply message = if message === "" then "unknown error" else message

-- `UploadExceptionFilter.catch`. Of the body of an `HttpException`, its message or title is kept.
unfoldable pub catch_exception : {A : Type 0} → Error → Answer A
catch_exception (http status message) = refused status message
catch_exception (response errors title status) = refused status title
catch_exception (failure code message) = refused 500 (message_to_apply message)
catch_exception pending = unanswered
catch_exception crashed = unanswered

-- a handler under `@UseFilters(UploadExceptionFilter)`
abbrev pub use_filter : {A : Type 0} → Result A × World → Answer A × World
use_filter (ok a, w) = (answered a, w)
use_filter (err e, w) = (catch_exception e, w)

unfoldable pub get : Env → TokenData → String → World → Answer Source × World
unfolding catch_exception
get env token_data file_id w = use_filter (get_file env token_data.uuid file_id w)

unfoldable pub upload :
    Env
    → String
    → String
    → TokenData
    → PayloadType
    → List Emitted
    → World
    → Answer UploadEntity × World
unfolding catch_exception
upload env bucket key token_data type req w =
    use_filter (upload_file env bucket key token_data.uuid type req w)

unfoldable pub update :
    Env
    → String
    → TokenData
    → String
    → PayloadType
    → List Emitted
    → World
    → Answer UploadEntity × World
unfolding catch_exception
update env bucket token_data file_id type req w =
    use_filter (update_of env bucket token_data.uuid file_id type req w)

unfoldable pub delete : Env → TokenData → List String → World → Answer Deletions × World
unfolding catch_exception
delete env token_data ids w =
    let (deletions, w') = delete_many env token_data.uuid ids w in (answered deletions, w')
