-- ===== src/Uploads/Service/Deletion.antt =====
-- Whose files `delete` deletes, and what `deleteMany` answers.
use core_status.Base.{
  suc, ◌+◌, String, ◌≡◌, ◌≢◌, refl, ap, ◌∙◌, not, some, List, [], ◌∷◌, arith, ◌===◌, ===_iff,
  select, length,
}
use core_status.Data.Errors.{Result, ok, err}
use core_status.Data.Entities.{UploadEntity, content}
use core_status.Effects.{World, Env, all_settled}
use core_status.Effects.Laws.{IsTable}
use core_status.Uploads.Service.{get_file_by_id, delete_file, delete, collect, delete_many}

-- The user is not asked: a content file that the table finds by its id is deleted for whoever names it, also for a
-- user who is not its owner.
delete_of_other_user :
    (env : Env) (laws : IsTable env.file_table) (user_id id : String) (w : World) (f : UploadEntity)
    (gone rows : List UploadEntity)
    → env.file_table.find_one (λ x. x.id === id) w.files ≡ ok (some f)
    → f.type ≡ content
    → f.user_id ≢ user_id
    → env.file_table.remove (λ x. x.id === f.id) w.files ≡ ok (gone, rows)
    → (delete env user_id id w ≡ (ok f, record w { files = rows }))
      × (rows ≡ select (λ x. not (x.id === id)) w.files)
unfolding delete get_file_by_id delete_file
delete_of_other_user env laws user_id id w f gone rows found type other removed =
    let same : f.id ≡ id =
      (===_iff f.id id).0 (laws.find_one_some (λ x. x.id === id) w.files f found).1 in
    (
      ground arith,
      (laws.remove_takes (λ x. x.id === f.id) w.files gone rows removed).1
          ∙ ap (λ s. select (λ (x : UploadEntity). not (x.id === s)) w.files) same,
    )

settled_length :
    (env : Env) (user_id : String) (ids : List String) (w : World)
    → length (all_settled (delete env user_id) ids w).0 ≡ length ids
settled_length env user_id [] w = refl
settled_length env user_id (id ∷ ids) w =
    ap suc (settled_length env user_id ids (delete env user_id id w).1)

length-collect :
    (rs : List (Result UploadEntity)) → length (collect rs).0 + length (collect rs).1 ≡ length rs
unfolding collect
length-collect [] = refl
length-collect (ok f ∷ rs) = omega (arith, length-collect rs)
length-collect (err e ∷ rs) = omega (arith, length-collect rs)

-- Each id of a request to delete several files is answered once, as deleted or as not deleted.
pub delete_many_answers :
    (env : Env) (user_id : String) (ids : List String) (w : World)
    → let (answer, w') = delete_many env user_id ids w in
      length answer.0 + length answer.1 ≡ length ids
unfolding delete_many
delete_many_answers env user_id ids w = omega (
  arith,
  length-collect (all_settled (delete env user_id) ids w).0,
  settled_length env user_id ids w,
)
