-- ===== src/Status/Remove/Wiped.antt =====
-- What the removals change, and what they answer.
use mathlib.Core.Bool.{false≢true}
use core_status.Base.{
  String, ◌≡◌, refl, ap, ◌∙◌, Bool, true, false, ◌&&◌, List, [], ◌∷◌, arith, ◌===◌, ===_iff, In,
  any_of, select, change, map, includes, inl, inr, Bool-cases, sym, none, some, ◌⊎◌,
}
use core_status.Data.Errors.{ok, err, http, Result-cases}
use core_status.Data.Entities.{Stream, Update}
use core_status.Data.Requests.{DeletedUpdate, SingleUpdateDeleteOptions, MassUpdateDeleteOptions}
use core_status.Effects.{World, Env, next-eq-ok}
use core_status.Effects.Laws.{IsTable}
use core_status.Status.Remove.{
  check_stream_ownership, is_owned, is_not_deleted, wipe, wipe_rows, single_target, mass_target,
  comment_of, any_row, remove_status_update, report, remove_status_updates,
}

-- The caller owns the stream.
abbrev pub Owns : String → String → World → Type 0
Owns owner_id stream_id w =
    (s : Stream) × In s w.streams × (s.owner_id ≡ owner_id) × (s.id ≡ stream_id)

check_inv :
    (env : Env) (laws : IsTable env.stream_table) (owner_id stream_id : String) (w w' : World)
    → check_stream_ownership env owner_id stream_id w ≡ (ok tt, w')
    → Owns owner_id stream_id w × (w' ≡ w)
unfolding check_stream_ownership
check_inv env laws owner_id stream_id w w' h =
    elim (Result-cases (env.stream_table.find (is_owned owner_id stream_id) w.streams)) [
      | inr (e, failed) ↦ absurd (ground arith)
      | inl (found, e) ↦ go found e
    ]
  where
    go :
        (found : List Stream)
        → env.stream_table.find (is_owned owner_id stream_id) w.streams ≡ ok found
        → Owns owner_id stream_id w × (w' ≡ w)
    go [] e = absurd (ground arith)
    go (s ∷ ss) e =
        let (i, own) =
          laws.find_sound (is_owned owner_id stream_id) w.streams (s ∷ ss) e s (inl refl) in
        (
          (
            s,
            i,
            ground (arith, ===_iff s.owner_id owner_id),
            ground (arith, ===_iff s.id stream_id),
          ),
          ground arith,
        )

wipe_rows_inv :
    (env : Env) (laws : IsTable env.update_table) (p : Update → Bool) (w w' : World)
    (hit : List Update)
    → wipe_rows env p w ≡ (ok hit, w')
    → (hit ≡ map wipe (select p w.updates)) × (w'.updates ≡ change p wipe w.updates)
unfolding wipe_rows
wipe_rows_inv env laws p w w' hit h =
    elim (Result-cases (env.update_table.update p wipe w.updates)) [
      | inr (e, failed) ↦ absurd (ground arith)
      | inl ((touched, rows), e) ↦
          (let (a, b) = laws.update_changes p wipe w.updates touched rows e in
            (ground arith, ground arith))
    ]

-- A caller who does not own the stream is refused, and nothing changes.
pub remove_refused :
    (env : Env) (owner_id : String) (o : SingleUpdateDeleteOptions) (m : MassUpdateDeleteOptions)
    (w : World)
    → o.stream_id ≡ m.stream_id
    → env.stream_table.find (is_owned owner_id m.stream_id) w.streams ≡ ok []
    → (remove_status_update env owner_id o w ≡ (err (http 403 "stream not owned or not exists"), w))
      × (remove_status_updates env owner_id m w
          ≡ (err (http 403 "stream not owned or not exists"), w))
unfolding remove_status_update remove_status_updates
remove_refused env owner_id o m w same e = (rw same (ground arith), ground arith)

-- What a removal of one update does.
remove_inv :
    (env : Env) (stream_laws : IsTable env.stream_table) (laws : IsTable env.update_table)
    (owner_id : String) (o : SingleUpdateDeleteOptions) (w w' : World) (d : DeletedUpdate)
    → remove_status_update env owner_id o w ≡ (ok d, w')
    → Owns owner_id o.stream_id w
      × (w'.updates ≡ change (single_target o) wipe w.updates)
      × (d ≡ record {
        id = o.id;
        comment = comment_of (any_row (map wipe (select (single_target o) w.updates)));
      })
unfolding remove_status_update
remove_inv env stream_laws laws owner_id o w w' d h =
    let (_, w₁, owned, h₁) = next-eq-ok (check_stream_ownership env owner_id o.stream_id w) _ h in
    let (hit, w₂, wiped, h₂) = next-eq-ok (wipe_rows env (single_target o) w₁) _ h₁ in
    let (owns, same) = check_inv env stream_laws owner_id o.stream_id w w₁ owned in
    let (a, b) = wipe_rows_inv env laws (single_target o) w₁ w₂ hit wiped in
    (owns, ground arith, ground arith)

select-change-wipe :
    (p : Update → Bool)
    → ((u : Update) → p (wipe u) ≡ false)
    → (rows : List Update) → select p (change p wipe rows) ≡ []
select-change-wipe p h [] = refl
select-change-wipe p h (u ∷ us) = ground (arith, h u, select-change-wipe p h us)

change_of_none :
    (p : Update → Bool) (rows : List Update) → select p rows ≡ [] → change p wipe rows ≡ rows
change_of_none p [] h = refl
change_of_none p (u ∷ us) h = ground (arith, change_of_none p us)

single_target-wipe : (o : SingleUpdateDeleteOptions) (u : Update) → single_target o (wipe u) ≡ false
single_target-wipe o u = ground arith

-- A removal that succeeds is of a stream of the caller; it wipes the payload of exactly the rows of that id and
-- stream that were not deleted, and answers "deleted" exactly when there was one.
pub remove_status_update_wipes :
    (env : Env) (stream_laws : IsTable env.stream_table) (laws : IsTable env.update_table)
    (owner_id : String) (o : SingleUpdateDeleteOptions) (w w' : World) (d : DeletedUpdate)
    → remove_status_update env owner_id o w ≡ (ok d, w')
    → Owns owner_id o.stream_id w
      × (w'.updates ≡ change (single_target o) wipe w.updates)
      × (d ≡ record { id = o.id; comment = comment_of (any_of (single_target o) w.updates) })
remove_status_update_wipes env stream_laws laws owner_id o w w' d h =
    let (owns, rows, answer) = remove_inv env stream_laws laws owner_id o w w' d h in
    (owns, rows, rw (← any_row-select (single_target o) w.updates) answer)
  where
    any_row-select :
        (p : Update → Bool) (us : List Update) → any_row (map wipe (select p us)) ≡ any_of p us
    any_row-select p [] = refl
    any_row-select p (u ∷ us) = ground (arith, any_row-select p us)

-- A second removal of the same update finds nothing to remove and changes no row.
pub remove_status_update_twice :
    (env : Env) (stream_laws : IsTable env.stream_table) (laws : IsTable env.update_table)
    (owner_id : String) (o : SingleUpdateDeleteOptions) (w w' w'' : World) (d d' : DeletedUpdate)
    → remove_status_update env owner_id o w ≡ (ok d, w')
    → remove_status_update env owner_id o w' ≡ (ok d', w'')
    → (d'.comment ≡ "update not found") × (w''.updates ≡ w'.updates)
remove_status_update_twice env stream_laws laws owner_id o w w' w'' d d' h h' =
    let first = (remove_inv env stream_laws laws owner_id o w w' d h).1 in
    let (_, rows, answer) = remove_inv env stream_laws laws owner_id o w' w'' d' h' in
    let none_left : select (single_target o) w'.updates ≡ [] =
      rw first (select-change-wipe (single_target o) (single_target-wipe o) w.updates) in
    (
      ap (λ (x : DeletedUpdate). x.comment) answer
          ∙ ap (λ us. comment_of (any_row (map wipe us))) none_left,
      rows ∙ change_of_none (single_target o) w'.updates none_left,
    )

-- The update has the id, lies in the stream and is not deleted.
abbrev pub is_live_of : String → String → Update → Bool
is_live_of stream_id id u = u.id === id && u.stream_id === stream_id && is_not_deleted u

-- The id is among the rows that a removal of several ids touched exactly when a row of it was there.
touched :
    (o : MassUpdateDeleteOptions) (id : String) (rows : List Update)
    → includes o.ids id ≡ true
    → any_of (λ u. u.id === id) (map wipe (select (mass_target o) rows))
      ≡ any_of (is_live_of o.stream_id id) rows
touched o id [] h = refl
touched o id (u ∷ us) h = elim (Bool-cases (u.id === id)) [
  | inl same ↦
      (let listed : includes o.ids u.id ≡ true = rw ((===_iff u.id id).0 same) h in
        ground (arith, touched o id us h))
  | inr other ↦ ground (arith, touched o id us h)
]

-- the answer to a removal of several ids, from the rows before it
abbrev pub expected : String → List Update → List String → List DeletedUpdate
expected stream_id rows [] = []
expected stream_id rows (id ∷ ids) =
    record { id = id; comment = comment_of (any_of (is_live_of stream_id id) rows) }
    ∷ expected stream_id rows ids

report-expected :
    (o : MassUpdateDeleteOptions) (ids : List String) (rows : List Update)
    → ((id : String) → In id ids → includes o.ids id ≡ true)
    → report (map wipe (select (mass_target o) rows)) ids ≡ expected o.stream_id rows ids
unfolding report
report-expected o [] rows h = refl
report-expected o (id ∷ ids) rows h =
    rw (touched o id rows (h id (inl refl)), report-expected o ids rows (λ x i. h x (inr i))) refl

includes-In : (ids : List String) (id : String) → In id ids → includes ids id ≡ true
includes-In [] id i = absurd i
includes-In (x ∷ xs) id (inl e) = rw e (rw ((===_iff x x).1 refl) refl)
includes-In (x ∷ xs) id (inr i) = ground (arith, includes-In xs id i)

-- The removal is of this row: it has one of the ids, lies in the stream and is not deleted.
abbrev pub IsTargeted : MassUpdateDeleteOptions → Update → Type 0
IsTargeted o u = In u.id o.ids × (u.stream_id ≡ o.stream_id) × (u.marker.deleted ≡ some false)

-- The row after its removal: no payload, marked as deleted, and otherwise as it was.
abbrev pub emptied : Update → Update
emptied u = record {
  id = u.id;
  user_id = u.user_id;
  stream_id = u.stream_id;
  payload = none;
  recorded_at = u.recorded_at;
  uploaded_at = u.uploaded_at;
  marker = record {
    started = u.marker.started;
    stopped = u.marker.stopped;
    frequency = u.marker.frequency;
    deleted = some true;
  };
}

-- Of the rows, in their order, those that are targeted are emptied, and the others are as they were.
abbrev pub AreRemoved : MassUpdateDeleteOptions → List Update → List Update → Type 0
AreRemoved o [] [] = Unit
AreRemoved o [] (v ∷ vs) = ⊥
AreRemoved o (u ∷ us) [] = ⊥
AreRemoved o (u ∷ us) (v ∷ vs) =
    ((IsTargeted o u × (v ≡ emptied u)) ⊎ ((IsTargeted o u → ⊥) × (v ≡ u))) × AreRemoved o us vs

In-includes : (ids : List String) (id : String) → includes ids id ≡ true → In id ids
In-includes [] id h = cc
In-includes (x ∷ xs) id h = elim (Bool-cases (x === id)) [
  | inl e ↦ inl (sym ((===_iff x id).0 e))
  | inr e ↦ inr (In-includes xs id (rw e at h))
]

mass_target-IsTargeted :
    (o : MassUpdateDeleteOptions) (u : Update) → mass_target o u ≡ true → IsTargeted o u
mass_target-IsTargeted o u h = (
  In-includes o.ids u.id (ground arith),
  ground (arith, ===_iff u.stream_id o.stream_id),
  ground arith,
)

IsTargeted-mass_target :
    (o : MassUpdateDeleteOptions) (u : Update) → IsTargeted o u → mass_target o u ≡ true
IsTargeted-mass_target o u (i, same, live) =
    rw (includes-In o.ids u.id i, (===_iff u.stream_id o.stream_id).1 same, live) refl

change-AreRemoved :
    (o : MassUpdateDeleteOptions) (us : List Update)
    → AreRemoved o us (change (mass_target o) wipe us)
change-AreRemoved o [] = tt
change-AreRemoved o (u ∷ us) = elim (Bool-cases (mass_target o u)) [
  | inl e ↦ (inl (mass_target-IsTargeted o u e, rw e refl), change-AreRemoved o us)
  | inr e ↦ (
    inr ((λ t. false≢true (sym e ∙ IsTargeted-mass_target o u t)), rw e refl),
    change-AreRemoved o us,
  )
]

-- What a removal of several updates does, by the condition of its statement.
pub remove_status_updates_changes :
    (env : Env) (stream_laws : IsTable env.stream_table) (laws : IsTable env.update_table)
    (owner_id : String) (o : MassUpdateDeleteOptions) (w w' : World) (ds : List DeletedUpdate)
    → remove_status_updates env owner_id o w ≡ (ok ds, w')
    → Owns owner_id o.stream_id w
      × (w'.updates ≡ change (mass_target o) wipe w.updates)
      × (ds ≡ expected o.stream_id w.updates o.ids)
unfolding remove_status_updates
remove_status_updates_changes env stream_laws laws owner_id o w w' ds h =
    let (_, w₁, owned, h₁) = next-eq-ok (check_stream_ownership env owner_id o.stream_id w) _ h in
    let (hit, w₂, wiped, h₂) = next-eq-ok (wipe_rows env (mass_target o) w₁) _ h₁ in
    let (owns, same) = check_inv env stream_laws owner_id o.stream_id w w₁ owned in
    let (a, b) = wipe_rows_inv env laws (mass_target o) w₁ w₂ hit wiped in
    let rep = report-expected o o.ids w.updates (λ id i. includes-In o.ids id i) in
    let rows : w'.updates ≡ change (mass_target o) wipe w.updates = ground arith in
    (owns, rows, ground arith)

-- A removal of several ids that succeeds is of a stream of the caller; of the rows, in their order, exactly those with
-- one of the ids in that stream that are marked as not deleted lose their payload and are marked as deleted, and the
-- others are as they were; and it answers for each id, in their order, "deleted" exactly when there was such a row.
pub remove_status_updates_report :
    (env : Env) (stream_laws : IsTable env.stream_table) (laws : IsTable env.update_table)
    (owner_id : String) (o : MassUpdateDeleteOptions) (w w' : World) (ds : List DeletedUpdate)
    → remove_status_updates env owner_id o w ≡ (ok ds, w')
    → Owns owner_id o.stream_id w
      × AreRemoved o w.updates w'.updates
      × (ds ≡ expected o.stream_id w.updates o.ids)
remove_status_updates_report env stream_laws laws owner_id o w w' ds h =
    let (owns, rows, answer) =
      remove_status_updates_changes env stream_laws laws owner_id o w w' ds h in
    (owns, rw rows (change-AreRemoved o w.updates), answer)
