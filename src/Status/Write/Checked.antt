-- ===== src/Status/Write/Checked.antt =====
-- What `save` checks before it writes, and what it writes.
use mathlib.Core.Path.{subst}
use mathlib.Core.List.{append-nil, append_assoc}
use core_status.Base.{
  ℕ, String, ◌≡◌, ◌⊎◌, refl, sym, ap, ◌∙◌, true, false, some, List, [], ◌∷◌, ◌++◌, arith, ◌===◌,
  ===_iff, In, All, any_of, inl, inr, Bool-cases,
}
use core_status.Data.Errors.{Result, ok, err, bad_request, Result-cases}
use core_status.Data.Entities.{Stream, Update, UpdateMarker}
use core_status.Data.Requests.{StatusDto, StatusRow, StatusResult, stored, already_exists}
use core_status.Effects.{World, Env, handle, next-eq-ok, pure-eq-ok, query}
use core_status.Effects.Laws.{IsTable}
use core_status.Streams.{get_streams_of}
use core_status.Subscribers.{push_to_worker}
use core_status.Status.Write.{
  row_of, is_mapped, check_streams, insert_status, insert_failed, save_all, save,
}

-- The caller owns a stream of the status's id.
abbrev pub OwnsStream : String → World → StatusDto → Type 0
OwnsStream owner_id w status =
    (s : Stream) × In s w.streams × (s.owner_id ≡ owner_id) × (s.id ≡ status.stream_id)

any_of_inv :
    (id : String) (streams : List Stream)
    → any_of (λ s. s.id === id) streams ≡ true
    → (s : Stream) × In s streams × (s.id ≡ id)
any_of_inv id [] h = cc
any_of_inv id (s ∷ ss) h = elim (Bool-cases (s.id === id)) [
  | inl same ↦ (s, inl refl, (===_iff s.id id).0 same)
  | inr other ↦ let (t, i, e) = any_of_inv id ss (rw other at h) in (t, inr i, e)
]

check_streams_inv :
    (streams : List Stream) (statuses : List StatusDto)
    → check_streams streams statuses ≡ ok tt
    → All (λ (status : StatusDto). (s : Stream) × In s streams × (s.id ≡ status.stream_id)) statuses
unfolding check_streams
check_streams_inv streams [] h = tt
check_streams_inv streams (x ∷ xs) h =
    (any_of_inv x.stream_id streams (ground arith), check_streams_inv streams xs (ground arith))

check_streams_fails :
    (streams : List Stream) (statuses : List StatusDto) (x : StatusDto)
    → In x statuses
    → is_mapped streams x ≡ false
    → check_streams streams statuses ≡ err (bad_request "stream does not exist")
unfolding check_streams
check_streams_fails streams [] x i h = absurd i
check_streams_fails streams (y ∷ ys) x (inl e) h = rw (← e, h) refl
check_streams_fails streams (y ∷ ys) x (inr i) h =
    ground (arith, check_streams_fails streams ys x i h)

-- One status for a stream that is not the caller's, and the whole request is refused before anything is written.
pub save_refused :
    (env : Env) (owner_id : String) (statuses : List StatusDto) (w : World) (streams : List Stream)
    (x : StatusDto)
    → env.stream_table.find (λ s. s.owner_id === owner_id) w.streams ≡ ok streams
    → In x statuses
    → is_mapped streams x ≡ false
    → save env owner_id statuses w ≡ (err (bad_request "stream does not exist"), w)
unfolding save
save_refused env owner_id statuses w streams x found i h =
    ground (arith, check_streams_fails streams statuses x i h)

-- The answers in the order of the statuses: each is the stored row, marked as not deleted and as the
-- caller's, or says that it was there already.
abbrev pub Answers : String → List StatusDto → List StatusResult → Type 0
Answers owner_id [] [] = Unit
Answers owner_id [] (r ∷ rs) = ⊥
Answers owner_id (s ∷ ss) [] = ⊥
Answers owner_id (s ∷ ss) (r ∷ rs) =
    ((r ≡ already_exists) ⊎ ((t : ℕ) × (r ≡ stored (row_of owner_id s) t))) × Answers owner_id ss rs

answer :
    (env : Env) (row : StatusRow) (w w' : World) (r : StatusResult)
    → handle (insert_status env row w) insert_failed ≡ (ok r, w')
    → (r ≡ already_exists) ⊎ ((t : ℕ) × (r ≡ stored row t))
unfolding insert_status insert_failed
answer env row w w' r h = elim (Result-cases (env.update_table.insert row w.updates)) [
  | inl ((u, rows), e) ↦ answered u rows e
  | inr (e, failed) ↦ inl (ground arith)
]
  where
    answered :
        (u : Update) (rows : List Update)
        → env.update_table.insert row w.updates ≡ ok (u, rows)
        → (r ≡ already_exists) ⊎ ((t : ℕ) × (r ≡ stored row t))
    answered u rows e =
        elim (Result-cases (push_to_worker env row (record w { updates = rows })).0) [
          | inl (a, pushed) ↦ inr (u.uploaded_at, ground arith)
          | inr (x, failed) ↦ inl (ground arith)
        ]

save_all-Answers :
    (env : Env) (owner_id : String) (statuses : List StatusDto) (w w' : World)
    (rs : List StatusResult)
    → save_all env owner_id statuses w ≡ (ok rs, w')
    → Answers owner_id statuses rs
unfolding save_all
save_all-Answers env owner_id [] w w' rs h =
    rw (← (pure-eq-ok {a = []} {b = rs} {w = w} {w' = w'} h).0) tt
save_all-Answers env owner_id (s ∷ ss) w w' rs h =
    let (r, w₁, first, h₁) =
      next-eq-ok (handle (insert_status env (row_of owner_id s) w) insert_failed) _ h in
    let (rest, w₂, later, h₂) = next-eq-ok (save_all env owner_id ss w₁) _ h₁ in
    rw (← (pure-eq-ok {a = r ∷ rest} {b = rs} {w = w₂} {w' = w'} h₂).0) (
      answer env (row_of owner_id s) w w₁ r first,
      save_all-Answers env owner_id ss w₁ w₂ rest later,
    )

-- A saved row holds the columns of what is saved.
abbrev pub StoresStatus : Env → Type 0
StoresStatus env =
    (row : StatusRow) (rows rows' : List Update) (u : Update)
    → env.update_table.insert row rows ≡ ok (u, rows')
    → (u.user_id ≡ row.user_id) × (u.marker ≡ row.marker)

-- The row is the caller's and is not deleted.
abbrev pub IsFresh : String → Update → Type 0
IsFresh owner_id u = (u.user_id ≡ owner_id) × (u.marker.deleted ≡ some false)

-- The table has grown by rows of the caller, and has lost and changed none.
abbrev pub Grows : String → World → World → Type 0
Grows owner_id w w' =
    (added : List Update) × (w'.updates ≡ w.updates ++ added) × All (IsFresh owner_id) added

insert-Grows :
    (env : Env) (laws : IsTable env.update_table) (stores : StoresStatus env) (owner_id : String)
    (s : StatusDto) (w w' : World) (r : Result StatusResult)
    → handle (insert_status env (row_of owner_id s) w) insert_failed ≡ (r, w')
    → Grows owner_id w w'
unfolding insert_status insert_failed push_to_worker
insert-Grows env laws stores owner_id s w w' r h =
    elim (Result-cases (env.update_table.insert (row_of owner_id s) w.updates)) [
      | inr (e, failed) ↦ ([], ground (arith, append-nil w.updates), tt)
      | inl ((u, rows), e) ↦
          (let columns = stores (row_of owner_id s) w.updates rows u e in
            (
              u ∷ [],
              ground (arith, laws.insert_adds (row_of owner_id s) w.updates rows u e),
              ((columns.0, ap (λ (m : UpdateMarker). m.deleted) columns.1), tt),
            ))
    ]

All-append : {A : Type 0} (P : A → Type 0) (xs ys : List A) → All P xs → All P ys → All P (xs ++ ys)
All-append P [] ys h k = k
All-append P (x ∷ xs) ys h k = (h.0, All-append P xs ys h.1 k)

Grows-trans :
    (owner_id : String) (u v w : World)
    → Grows owner_id u v
    → Grows owner_id v w
    → Grows owner_id u w
Grows-trans owner_id u v w (xs, e, h) (ys, f, k) = (
  xs ++ ys,
  f ∙ ap (λ zs. zs ++ ys) e ∙ append_assoc u.updates xs ys,
  All-append (IsFresh owner_id) xs ys h k,
)

pub save_all-Grows :
    (env : Env) (laws : IsTable env.update_table) (stores : StoresStatus env) (owner_id : String)
    (statuses : List StatusDto) (w w' : World) (rs : List StatusResult)
    → save_all env owner_id statuses w ≡ (ok rs, w')
    → Grows owner_id w w'
unfolding save_all
save_all-Grows env laws stores owner_id [] w w' rs h = (
  [],
  ap (λ (v : World). v.updates) (sym (pure-eq-ok {a = []} {b = rs} {w = w} {w' = w'} h).1)
      ∙ sym (append-nil w.updates),
  tt,
)
save_all-Grows env laws stores owner_id (s ∷ ss) w w' rs h =
    let (r, w₁, first, h₁) =
      next-eq-ok (handle (insert_status env (row_of owner_id s) w) insert_failed) _ h in
    let (rest, w₂, later, h₂) = next-eq-ok (save_all env owner_id ss w₁) _ h₁ in
    rw (← (pure-eq-ok {a = r ∷ rest} {b = rs} {w = w₂} {w' = w'} h₂).1) (
      Grows-trans owner_id w w₁ w₂ (insert-Grows env laws stores owner_id s w w₁ (ok r) first)
        (save_all-Grows env laws stores owner_id ss w₁ w₂ rest later))

owned_of_found :
    (env : Env) (laws : IsTable env.stream_table) (owner_id : String) (w : World)
    (streams : List Stream) (statuses : List StatusDto)
    → env.stream_table.find (λ s. s.owner_id === owner_id) w.streams ≡ ok streams
    → All (λ (x : StatusDto). (s : Stream) × In s streams × (s.id ≡ x.stream_id)) statuses
    → All (OwnsStream owner_id w) statuses
owned_of_found env laws owner_id w streams [] e h = tt
owned_of_found env laws owner_id w streams (x ∷ xs) e ((s, i, id), h) =
    let (row, own) = laws.find_sound (λ s. s.owner_id === owner_id) w.streams streams e s i in
    (
      (s, row, (===_iff s.owner_id owner_id).0 own, id),
      owned_of_found env laws owner_id w streams xs e h,
    )

-- A request that is answered was for streams of the caller alone; it has one answer for each status, in their
-- order, and the table has grown by rows of the caller that are not deleted, and has changed no other.
pub save-Answers :
    (env : Env) (stream_laws : IsTable env.stream_table) (laws : IsTable env.update_table)
    (stores : StoresStatus env) (owner_id : String) (statuses : List StatusDto) (w w' : World)
    (rs : List StatusResult)
    → save env owner_id statuses w ≡ (ok rs, w')
    → All (OwnsStream owner_id w) statuses × Answers owner_id statuses rs × Grows owner_id w w'
unfolding save get_streams_of
save-Answers env stream_laws laws stores owner_id statuses w w' rs h =
    let (streams, w₁, found, h₁) = next-eq-ok (get_streams_of env owner_id w) _ h in
    let (_, w₂, checked, h₂) = next-eq-ok (query (λ v. check_streams streams statuses) w₁) _ h₁ in
    let back : w₂ ≡ w = ground arith in
    (
      owned_of_found env stream_laws owner_id w streams statuses (ground arith)
          (check_streams_inv streams statuses (ground arith)),
      save_all-Answers env owner_id statuses w₂ w' rs h₂,
      subst (λ v. Grows owner_id v w') back
          (save_all-Grows env laws stores owner_id statuses w₂ w' rs h₂),
    )
