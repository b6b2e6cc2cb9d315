-- ===== src/Status/Lifecycle/Forward.antt =====
-- How the first row of an update changes under the calls of the handlers.
use core_status.Base.{
  String, ◌≤◌, ◌≡◌, refl, Bool, List, [], ◌∷◌, ◌++◌, arith, map, change, inl, inr,
}
use mathlib.Core.List.{append-nil}
use core_status.Data.Errors.{Result, ok, err, Result-cases}
use core_status.Data.Entities.{Update}
use core_status.Data.Requests.{StatusDto, StatusRow, DeletedUpdate, DeleteStatusDateRangeOptions}
use core_status.Effects.{World, Env, M, handle, next, pure, query, ◌>>=◌}
use core_status.Effects.Laws.{IsTable}
use core_status.Streams.{get_streams_of}
use core_status.Subscribers.{push_to_worker, iso_text}
use core_status.Status.Write.{row_of, insert_status, insert_failed, save_all, save}
use core_status.Status.Remove.{
  wipe, wipe_rows, check_stream_ownership, remove_status_update, range_target, deleted_row,
  remove_status_updates, remove_status_updates_by_date_range,
}
use core_status.Status.Lifecycle.{
  state_of, rank, Step, appends, removes, removes_several, removes_range, Steps, no_step, then_step,
}

-- No update of the first world is further in its life than in the second.
abbrev pub Forward : List Update → List Update → Type 0
Forward rows rows' = (s i : String) → rank (state_of rows s i) ≤ rank (state_of rows' s i)

append-Forward : (rows added : List Update) → Forward rows (rows ++ added)
append-Forward [] added s i = omega arith
append-Forward (u ∷ us) added s i = ground (arith, append-Forward us added s i)

change-Forward : (p : Update → Bool) (rows : List Update) → Forward rows (change p wipe rows)
change-Forward p [] s i = omega arith
change-Forward p (u ∷ us) s i = ground (arith, change-Forward p us s i)

same-Forward : (rows rows' : List Update) → rows' ≡ rows → Forward rows rows'
same-Forward rows rows' e s i = rw e (omega arith)

-- What an appended status does to the table: nothing, or a row at its end.
insert_updates :
    (env : Env) (laws : IsTable env.update_table) (row : StatusRow) (w : World)
    → (added : List Update) × ((handle (insert_status env row w) insert_failed).1.updates
        ≡ w.updates ++ added)
unfolding insert_status insert_failed push_to_worker
insert_updates env laws row w = elim (Result-cases (env.update_table.insert row w.updates)) [
  | inr (e, failed) ↦ ([], ground (arith, append-nil w.updates))
  | inl ((u, rows), e) ↦ (u ∷ [], ground (arith, laws.insert_adds row w.updates rows u e))
]

-- a chain of calls, each of which keeps the order
next-Forward :
    {A B : Type 0} (rows : List Update) (m : Result A × World) (f : A → M B)
    → Forward rows m.1.updates
    → ((a : A) (w : World) → Forward w.updates (f a w).1.updates)
    → Forward rows (next m f).1.updates
next-Forward rows (ok a, w) f h k = λ s i. omega (arith, h s i, k a w s i)
next-Forward rows (err e, w) f h k = h

save_all-Forward :
    (env : Env) (laws : IsTable env.update_table) (owner_id : String) (statuses : List StatusDto)
    (w : World)
    → Forward w.updates (save_all env owner_id statuses w).1.updates
unfolding save_all
save_all-Forward env laws owner_id [] w = same-Forward w.updates w.updates refl
save_all-Forward env laws owner_id (x ∷ xs) w =
    let (added, grown) = insert_updates env laws (row_of owner_id x) w in
    next-Forward w.updates (handle (insert_status env (row_of owner_id x) w) insert_failed) _
      (rw grown (append-Forward w.updates added))
      (λ r v.
        next-Forward v.updates (save_all env owner_id xs v) _
          (save_all-Forward env laws owner_id xs v) (λ rs u. same-Forward u.updates u.updates refl))

save-Forward :
    (env : Env) (laws : IsTable env.update_table) (owner_id : String) (statuses : List StatusDto)
    (w : World)
    → Forward w.updates (save env owner_id statuses w).1.updates
unfolding save get_streams_of
save-Forward env laws owner_id statuses w s i =
    ground (arith, save_all-Forward env laws owner_id statuses w s i)

wipe_rows-Forward :
    (env : Env) (laws : IsTable env.update_table) (p : Update → Bool) (w : World)
    → Forward w.updates (wipe_rows env p w).1.updates
unfolding wipe_rows
wipe_rows-Forward env laws p w = elim (Result-cases (env.update_table.update p wipe w.updates)) [
  | inr (e, failed) ↦ same-Forward _ _ (ground arith)
  | inl ((hit, rows), e) ↦
      rw e (rw (laws.update_changes p wipe w.updates hit rows e).1 (change-Forward p w.updates))
]

module _ (env : Env) (laws : IsTable env.update_table) where
  removals-Forward :
      {A : Type 0} (owner_id stream_id : String) (rest : M A) (w : World)
      → ((v : World) → Forward v.updates (rest v).1.updates)
      → Forward w.updates
          (next (check_stream_ownership env owner_id stream_id w) (λ _. rest)).1.updates
  unfolding check_stream_ownership
  removals-Forward owner_id stream_id rest w h s i = ground (arith, h w s i)

  then_wipe-Forward :
      {B : Type 0} (p : Update → Bool) (answer : List Update → B) (w : World)
      → Forward w.updates (next (wipe_rows env p w) (λ hit. pure (answer hit))).1.updates
  then_wipe-Forward p answer w =
      next-Forward w.updates (wipe_rows env p w) (λ hit. pure (answer hit))
        (wipe_rows-Forward env laws p w) (λ hit v. same-Forward v.updates v.updates refl)

  after_query-Forward :
      {A B : Type 0} (f : World → Result A) (rest : A → M B)
      → ((a : A) (v : World) → Forward v.updates (rest a v).1.updates)
      → (w : World) → Forward w.updates (next (query f w) rest).1.updates
  after_query-Forward f rest h w =
      next-Forward w.updates (query f w) rest (same-Forward w.updates w.updates refl) h

  -- the end of the removal of a range of dates
  abbrev erase_between : DeleteStatusDateRangeOptions → String → String → M (List DeletedUpdate)
  erase_between o from to =
      wipe_rows env (range_target o.stream_id (env.database_date from) (env.database_date to))
      >>= λ hit. pure (map deleted_row hit)

  Step-Forward : {v w : World} → Step env v w → Forward v.updates w.updates
  unfolding remove_status_update remove_status_updates remove_status_updates_by_date_range
  Step-Forward (appends owner_id statuses v) = save-Forward env laws owner_id statuses v
  Step-Forward (removes owner_id o v) =
      removals-Forward owner_id o.stream_id _ v (then_wipe-Forward _ _)
  Step-Forward (removes_several owner_id o v) =
      removals-Forward owner_id o.stream_id _ v (then_wipe-Forward _ _)
  Step-Forward (removes_range owner_id o v) = removals-Forward owner_id o.stream_id _ v (
      after_query-Forward (λ x. iso_text env o.from)
        (λ from. query (λ x. iso_text env o.to) >>= λ to. erase_between o from to)
        (λ from.
          after_query-Forward (λ x. iso_text env o.to) (erase_between o from)
            (λ to. then_wipe-Forward _ _)))

  -- Whatever appending and removing calls run, by whoever makes them, whatever they answer and however they fail:
  -- by its first row, an update goes from absent to live to gone, and never back.
  pub updates_go_forward :
      {v w : World}
      → Steps env v w
      → (stream_id id : String)
      → rank (state_of v.updates stream_id id) ≤ rank (state_of w.updates stream_id id)
  updates_go_forward no_step s i = omega arith
  updates_go_forward (then_step before last) s i =
      omega (arith, updates_go_forward before s i, Step-Forward last s i)
