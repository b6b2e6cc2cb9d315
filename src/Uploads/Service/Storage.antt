-- ===== src/Uploads/Service/Storage.antt =====
-- Where the bytes of a file are kept, and whose files are read and written.
use mathlib.Core.Path.{subst}
use core_status.Base.{
  String, ◌≡◌, refl, ap, ◌∙◌, Option, none, some, arith, ◌===◌, ===_iff, In, change, inl, inr,
  if◌then◌else◌, ◌≢◌, List, [], ◌∷◌, ℕ, Bool-cases,
}
use core_status.Data.Errors.{ok, err, Result-cases, not_found}
use core_status.Data.Entities.{UploadEntity, PayloadType, lockbox, content}
use core_status.Effects.{World, Env, handle, throw, pure, next-eq-ok}
use core_status.Effects.Laws.{IsTable}
use core_status.Uploads.Request.{
  Emitted, file_found, raised, chunk, failed, finish, Promise, settle,
}
use core_status.Uploads.Stream.{s3_read_chunk_size}
use core_status.Data.Requests.{ImageResponseDto}
use core_status.Uploads.Service.{
  is_lockbox, is_own_file, get_file_by_options, drop_object, new_contents, update_file, update,
  Source, row, object, get, delete_s3, upload_s3, upload_image_to_s3, called_back, start_upload,
  get_object, get_s3, get_file_from_s3,
}

-- A lockbox file is kept in a bucket and has no bytes in its row; a content file has its bytes in the row
-- and names no bucket.
abbrev pub KeptBy : PayloadType → UploadEntity → Type 0
KeptBy lockbox f = (f.bytes ≡ none) × (f.bucket ≢ none)
KeptBy content f = (f.bytes ≢ none) × (f.bucket ≡ none)

abbrev pub IsStored : UploadEntity → Type 0
IsStored f = KeptBy f.type f

find_inv :
    (env : Env) (laws : IsTable env.file_table) (id user_id : String) (w w' : World)
    (f : UploadEntity)
    → get_file_by_options env id user_id w ≡ (ok f, w')
    → In f w.files × (f.id ≡ id) × (f.user_id ≡ user_id) × (w' ≡ w)
unfolding get_file_by_options
find_inv env laws id user_id w w' f h =
    elim (Result-cases (env.file_table.find_one (is_own_file id user_id) w.files)) [
      | inr (e, thrown) ↦ absurd (ground arith)
      | inl (found, e) ↦ go found e
    ]
  where
    go :
        (found : Option UploadEntity)
        → env.file_table.find_one (is_own_file id user_id) w.files ≡ ok found
        → In f w.files × (f.id ≡ id) × (f.user_id ≡ user_id) × (w' ≡ w)
    go none e = absurd (ground arith)
    go (some x) e =
        let (i, own) = laws.find_one_some (is_own_file id user_id) w.files x e in
        let same : x ≡ f = ground arith in
        (
          subst (λ y. In y w.files) same i,
          ground (arith, ===_iff x.id id),
          ground (arith, ===_iff x.user_id user_id),
          ground arith,
        )

drop_object_files :
    (env : Env) (f : UploadEntity) (w : World) → (drop_object env f w).1.files ≡ w.files
unfolding drop_object delete_s3
drop_object_files env f w = ground arith

-- An upload to S3 leaves the table of files alone.
pub upload_image_files :
    (env : Env) (key bucket : String) (p : Promise ImageResponseDto) (req : List Emitted)
    (w : World)
    → (upload_image_to_s3 env key bucket p req w).1.files ≡ w.files
unfolding upload_image_to_s3
upload_image_files env key bucket p [] w = refl
upload_image_files env key bucket p (file_found ∷ more) w =
    upload_image_files env key bucket (called_back p (env.s3_upload key bucket w.history)) more
      (start_upload key bucket w)
upload_image_files env key bucket p (raised e ∷ more) w =
    upload_image_files env key bucket (settle p (err e)) more w
upload_image_files env key bucket p (chunk bytes ∷ more) w =
    upload_image_files env key bucket p more w
upload_image_files env key bucket p (failed e ∷ more) w = refl
upload_image_files env key bucket p (finish ∷ more) w = upload_image_files env key bucket p more w

new_contents_inv :
    (env : Env) (bucket : String) (type : PayloadType) (req : List Emitted) (f g : UploadEntity)
    (w w' : World)
    → new_contents env bucket type req f w ≡ (ok g, w')
    → KeptBy type g × (g.id ≡ f.id) × (g.key ≡ f.key) × (w'.files ≡ w.files)
unfolding new_contents upload_s3
new_contents_inv env bucket lockbox req f g w w' h =
    ground (arith, upload_image_files env f.key bucket none req w)
new_contents_inv env bucket content req f g w w' h = ground (arith, drop_object_files env f w)

KeptBy-relabel :
    (type : PayloadType) (user_id : String) (g : UploadEntity)
    → KeptBy type g
    → KeptBy type (record g { type = type; user_id = user_id })
KeptBy-relabel lockbox user_id g h = h
KeptBy-relabel content user_id g h = h

update_file_inv :
    (env : Env) (laws : IsTable env.file_table) (file : UploadEntity) (w w' : World)
    (f : UploadEntity)
    → update_file env file w ≡ (ok f, w')
    → w'.files ≡ change (λ x. x.id === file.id) (λ x. file) w.files
unfolding update_file
update_file_inv env laws file w w' f h =
    elim (Result-cases (env.file_table.update (λ x. x.id === file.id) (λ x. file) w.files)) [
      | inr (e, thrown) ↦ absurd (ground arith)
      | inl ((hit, rows), e) ↦ ground (arith, laws.update_changes _ _ w.files hit rows e)
    ]

-- An update that succeeds is of a file of the caller; the row with its id, and no other, becomes a file of the
-- requested type with the same key that is stored as that type demands, and stays the caller's.
pub update-IsStored :
    (env : Env) (laws : IsTable env.file_table) (bucket user_id id : String) (type : PayloadType)
    (req : List Emitted) (w w' : World) (f : UploadEntity)
    → update env bucket user_id id type req w ≡ (ok f, w')
    → (old : UploadEntity) × (new : UploadEntity) × In old w.files
      × (old.id ≡ id)
      × (old.user_id ≡ user_id)
      × IsStored new
      × (new.type ≡ type)
      × (new.id ≡ old.id)
      × (new.key ≡ old.key)
      × (new.user_id ≡ user_id)
      × (w'.files ≡ change (λ x. x.id === id) (λ x. new) w.files)
unfolding update
update-IsStored env laws bucket user_id id type req w w' f h =
    let (old, w₁, found, h₁) =
      next-eq-ok
        (handle (get_file_by_options env id user_id w) (λ e. throw (not_found "file not found"))) _
        h in
    let (i, same_id, owner, back) = find_inv env laws id user_id w w₁ old (ground arith) in
    let (g, w₂, changed, h₂) = next-eq-ok (new_contents env bucket type req old w₁) _ h₁ in
    let (kept, ids, keys, files) = new_contents_inv env bucket type req old g w₁ w₂ changed in
    let new : UploadEntity = record g { type = type; user_id = user_id } in
    let files' : w₂.files ≡ w.files = files ∙ ap (λ (v : World). v.files) back in
    (
      old,
      new,
      i,
      same_id,
      owner,
      KeptBy-relabel type user_id g kept,
      refl,
      ids,
      keys,
      refl,
      update_file_inv env laws new w₂ w' f h₂
          ∙ ap (λ s. change (λ (x : UploadEntity). x.id === s) (λ x. new) w₂.files) (ids ∙ same_id)
          ∙ ap (change (λ (x : UploadEntity). x.id === id) (λ x. new)) files',
    )

-- Where the bytes of a file come from: its row, or a stream from the start of its object.
abbrev pub source_of : UploadEntity → ℕ → Source
source_of f content_length =
    if is_lockbox f.type
    then object f.bucket f.key
        (record { curr_pos = 0; chunk_size = s3_read_chunk_size; max_len = content_length })
    else row f.bytes

opened :
    (env : Env) (f : UploadEntity) (w w' : World) (source : Source)
    → (if is_lockbox f.type then get_object env f else pure (row f.bytes)) w ≡ (ok source, w')
    → (n : ℕ) × (source ≡ source_of f n)
unfolding get_object get_s3 get_file_from_s3
opened env f w w' source h = elim (Bool-cases (is_lockbox f.type)) [
  | inl e ↦ elim (Result-cases (env.s3_head f.bucket f.key w.history)) [
    | inl (n, answer) ↦ (n, rw e (ground arith))
    | inr (x, no_answer) ↦ absurd (ground arith)
  ]
  | inr e ↦ (0, rw e (ground arith))
]

-- What is read is the caller's file, from where its type keeps it.
pub get_own :
    (env : Env) (laws : IsTable env.file_table) (user_id id : String) (w w' : World)
    (source : Source)
    → get env user_id id w ≡ (ok source, w')
    → (f : UploadEntity) × In f w.files
      × (f.id ≡ id)
      × (f.user_id ≡ user_id)
      × (content_length : ℕ) × (source ≡ source_of f content_length)
unfolding get
get_own env laws user_id id w w' source h =
    let (f, w₁, found, h₁) = next-eq-ok (get_file_by_options env id user_id w) _ h in
    let (i, same_id, owner, back) = find_inv env laws id user_id w w₁ f found in
    let (n, same) = opened env f w₁ w' source h₁ in (f, i, same_id, owner, n, same)
