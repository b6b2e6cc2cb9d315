-- ===== src/Uploads/Service/Fresh.antt =====
-- What an upload stores and sends.
use core_status.Base.{String, ◌≡◌, sym, ap, ◌∙◌, none, List, [], ◌∷◌, ◌++◌, arith, inl, inr}
use core_status.Data.Errors.{ok, Result-cases}
use core_status.Data.Entities.{UploadEntity, PayloadType, lockbox, content}
use core_status.Data.Messages.{Effect, send_upload}
use core_status.Effects.{World, Env, call, pure, ◌>>◌, next-eq-ok}
use core_status.Effects.Laws.{IsTable}
use core_status.Uploads.Request.{Emitted}
use core_status.Uploads.Service.{
  new_file, first_contents, upload_failed, upload_s3, insert_file, upload,
}
use core_status.Uploads.Service.Storage.{KeptBy, upload_image_files}

-- The contents of a new file are kept as its type demands, and its key and user stay.
first_contents_inv :
    (env : Env) (bucket : String) (type : PayloadType) (req : List Emitted) (f g : UploadEntity)
    (w w' : World)
    → first_contents env bucket type req f w ≡ (ok g, w')
    → KeptBy type g
      × (g.key ≡ f.key)
      × (g.user_id ≡ f.user_id)
      × (g.type ≡ f.type)
      × (w'.files ≡ w.files)
unfolding first_contents upload_s3 upload_failed
first_contents_inv env bucket lockbox req f g w w' h =
    ground (arith, upload_image_files env f.key bucket none req w)
first_contents_inv env bucket content req f g w w' h = ground arith

insert_file_inv :
    (env : Env) (laws : IsTable env.file_table) (file f : UploadEntity) (w w' : World)
    → insert_file env file w ≡ (ok f, w')
    → (row : UploadEntity) × (rows : List UploadEntity) × (env.file_table.insert file w.files
        ≡ ok (row, rows))
      × (f ≡ record row { bytes = none })
      × (w'.files ≡ w.files ++ row ∷ [])
      × (w'.history ≡ w.history)
unfolding insert_file
insert_file_inv env laws file f w w' h = elim (Result-cases (env.file_table.insert file w.files)) [
  | inr (e, refused) ↦ absurd (ground arith)
  | inl ((row, rows), stored) ↦
      (let adds = laws.insert_adds file w.files rows row stored in
        (row, rows, stored, ground arith, ground arith, ground arith))
]

sent_inv :
    (env : Env) (x f : UploadEntity) (w w' : World)
    → (call env (send_upload x) >> pure x) w ≡ (ok f, w')
    → (f ≡ x) × (w'.files ≡ w.files) × (w'.history ≡ w.history ++ send_upload x ∷ [])
sent_inv env x f w w' h = ground arith

-- An upload that succeeds has stored one row at the end of the table, for a file of the caller under the given key whose
-- contents are kept as the type demands; it has sent this row without its bytes last of all, and returns it so.
pub upload_stores :
    (env : Env) (laws : IsTable env.file_table) (bucket key user_id : String) (type : PayloadType)
    (req : List Emitted) (w w' : World) (f : UploadEntity)
    → upload env bucket key user_id type req w ≡ (ok f, w')
    → (file : UploadEntity) × (row : UploadEntity) × (rows : List UploadEntity) × (before : List
        Effect)
      × KeptBy type file
      × (file.key ≡ key)
      × (file.user_id ≡ user_id)
      × (file.type ≡ type)
      × (env.file_table.insert file w.files ≡ ok (row, rows))
      × (f ≡ record row { bytes = none })
      × (w'.files ≡ w.files ++ row ∷ [])
      × (w'.history ≡ before ++ send_upload f ∷ [])
unfolding upload
upload_stores env laws bucket key user_id type req w w' f h =
    let file = new_file key user_id type in
    let (g, w₁, filled, h₁) = next-eq-ok (first_contents env bucket type req file w) _ h in
    let (kept, same_key, same_user, same_type, files) =
      first_contents_inv env bucket type req file g w w₁ filled in
    let (x, w₂, inserted, h₂) = next-eq-ok (insert_file env g w₁) _ h₁ in
    let (row, rows, stored, returned, grown, quiet) = insert_file_inv env laws g x w₁ w₂ inserted in
    let (same, rested, told) = sent_inv env x f w₂ w' h₂ in
    let is_row : f ≡ record row { bytes = none } = same ∙ returned in
    (
      g,
      row,
      rows,
      w₂.history,
      kept,
      same_key,
      same_user,
      same_type,
      ap (env.file_table.insert g) (sym files) ∙ stored,
      is_row,
      rested ∙ grown ∙ ap (λ kept_rows. kept_rows ++ row ∷ []) files,
      told ∙ ap (λ y. w₂.history ++ send_upload y ∷ []) (sym same),
    )
