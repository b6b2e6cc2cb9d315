-- ===== src/Status/Write/Served.antt =====
-- From a status that its owner appends to what a reader is answered with.
use mathlib.Core.Path.{subst}
use core_status.Base.{
  ℕ, String, ◌≡◌, ◌≤◌, ◌⊎◌, refl, sym, some, List, [], ◌∷◌, ◌++◌, arith, In, In-append_left,
  In-append_right, inl, inr,
}
use core_status.Data.Errors.{ok, Result-cases}
use core_status.Data.Entities.{Update}
use core_status.Data.Requests.{StatusDto, StatusRow, StatusResult, stored, TimeRangeDto}
use core_status.Effects.{World, Env, handle, next-eq-ok, pure-eq-ok, query}
use core_status.Effects.Laws.{IsTable}
use core_status.Grants.Range.Coverage.{IsSortBy}
use core_status.Streams.{get_streams_of}
use core_status.Subscribers.{push_to_worker}
use core_status.Status.Read.{Served, get_user_status_by_stream_id}
use core_status.Status.Read.Granted.{FindsUpdates}
use core_status.Status.Read.Complete.{FindsAll, served_iff}
use core_status.Status.Write.{row_of, check_streams, insert_status, insert_failed, save_all, save}
use core_status.Status.Write.Checked.{StoresStatus, save_all-Grows}

-- The row holds what was sent.
abbrev pub HoldsStatus : Env → StatusDto → Update → Type 0
HoldsStatus env status u =
    (u.id ≡ status.id)
    × (u.stream_id ≡ status.stream_id)
    × (u.payload ≡ some status.payload)
    × ((time : ℕ) → env.database_date status.recorded_at ≡ some time → u.recorded_at ≡ time)

-- A saved row holds the columns of what is saved.
abbrev pub StoresColumns : Env → Type 0
StoresColumns env =
    (row : StatusRow) (rows rows' : List Update) (u : Update)
    → env.update_table.insert row rows ≡ ok (u, rows')
    → HoldsStatus env row.status u

-- The status stands in the request where the result stands in the answer.
abbrev pub Answered : StatusDto → StatusResult → List StatusDto → List StatusResult → Type 0
Answered s r [] rs = ⊥
Answered s r (x ∷ xs) [] = ⊥
Answered s r (x ∷ xs) (y ∷ ys) = ((x ≡ s) × (y ≡ r)) ⊎ Answered s r xs ys

-- a row of the table that holds the status
abbrev pub IsKept : Env → StatusDto → World → Type 0
IsKept env s w = (u : Update) × In u w.updates × HoldsStatus env s u

insert-IsKept :
    (env : Env) (laws : IsTable env.update_table) (columns : StoresColumns env) (owner_id : String)
    (s : StatusDto) (t : ℕ) (w w' : World)
    → handle (insert_status env (row_of owner_id s) w) insert_failed
      ≡ (ok (stored (row_of owner_id s) t), w')
    → IsKept env s w'
unfolding insert_status insert_failed push_to_worker
insert-IsKept env laws columns owner_id s t w w' h =
    elim (Result-cases (env.update_table.insert (row_of owner_id s) w.updates)) [
      | inr (e, failed) ↦ absurd (ground arith)
      | inl ((u, rows), e) ↦
          (let grown = laws.insert_adds (row_of owner_id s) w.updates rows u e in
            let is : w'.updates ≡ w.updates ++ u ∷ [] = ground arith in
            (
              u,
              subst (λ l. In u l) (sym is) (In-append_right u w.updates (u ∷ []) (inl refl)),
              columns (row_of owner_id s) w.updates rows u e,
            ))
    ]

save_all-IsKept :
    (env : Env) (laws : IsTable env.update_table) (stores : StoresStatus env)
    (columns : StoresColumns env) (owner_id : String) (s : StatusDto) (t : ℕ)
    (statuses : List StatusDto) (w w' : World) (rs : List StatusResult)
    → save_all env owner_id statuses w ≡ (ok rs, w')
    → Answered s (stored (row_of owner_id s) t) statuses rs
    → IsKept env s w'
unfolding save_all
save_all-IsKept env laws stores columns owner_id s t [] w w' rs h i = absurd i
save_all-IsKept env laws stores columns owner_id s t (x ∷ xs) w w' rs h i =
    let (r, w₁, first, h₁) =
      next-eq-ok (handle (insert_status env (row_of owner_id x) w) insert_failed) _ h in
    let (rest, w₂, later, h₂) = next-eq-ok (save_all env owner_id xs w₁) _ h₁ in
    let ends = pure-eq-ok {a = r ∷ rest} {b = rs} {w = w₂} {w' = w'} h₂ in
    let (added, grown, fresh) = save_all-Grows env laws stores owner_id xs w₁ w₂ rest later in
    subst (λ v. IsKept env s v) ends.1
      (elim (subst (λ l. Answered s (stored (row_of owner_id s) t) (x ∷ xs) l) (sym ends.0) i) [
        | inl (is_status, is_answer) ↦
            (let (u, there, holds) =
                insert-IsKept env laws columns owner_id s t w w₁
                  (rw (← is_answer, ← is_status) first) in
              (u, subst (λ l. In u l) (sym grown) (In-append_left u w₁.updates added there), holds))
        | inr among ↦ save_all-IsKept env laws stores columns owner_id s t xs w₁ w₂ rest later among
      ])

-- A status that a request has stored for its owner is, if its time can be read and nothing is changed in between, in
-- the answer to each request for a range of its stream around that time that succeeds, as the row that holds it.
pub saved_is_served :
    (env : Env) (laws : IsTable env.update_table) (stores : StoresStatus env)
    (columns : StoresColumns env) (sorts : IsSortBy env.sort_by_from_date)
    (grant_laws : IsTable env.grant_table) (finds : FindsUpdates env) (finds_all : FindsAll env)
    (owner_id r : String) (statuses : List StatusDto) (s : StatusDto) (t time : ℕ)
    (range : TimeRangeDto) (lo hi : ℕ) (w w' w'' : World) (rs : List StatusResult)
    (served : List Served)
    → save env owner_id statuses w ≡ (ok rs, w')
    → Answered s (stored (row_of owner_id s) t) statuses rs
    → env.date range.from_date ≡ some lo
    → env.date range.to_date ≡ some hi
    → env.database_date range.from_date ≡ some lo
    → env.database_date range.to_date ≡ some hi
    → env.database_date s.recorded_at ≡ some time
    → lo ≤ time
    → time ≤ hi
    → get_user_status_by_stream_id env r s.stream_id range w' ≡ (ok served, w'')
    → (y : Served) × In y served × HoldsStatus env s y.update
unfolding save get_streams_of
saved_is_served env laws stores columns sorts grant_laws finds finds_all owner_id r statuses s t
      time range lo hi w w' w'' rs served h among from to from_same to_same read a b got =
    let (streams, w₁, found, h₁) = next-eq-ok (get_streams_of env owner_id w) _ h in
    let (_, w₂, checked, h₂) = next-eq-ok (query (λ v. check_streams streams statuses) w₁) _ h₁ in
    let (u, there, holds) =
      save_all-IsKept env laws stores columns owner_id s t statuses w₂ w' rs h₂ among in
    let at : u.recorded_at ≡ time = holds.3 time read in
    let (y, i, e) =
      (served_iff env sorts grant_laws r s.stream_id range lo hi from to finds finds_all from_same
          to_same w' w'' served u got).1
        (there, holds.1, rw at a, rw at b) in
    (y, i, subst (λ v. HoldsStatus env s v) (sym e) holds)
