-- ===== src/Grants/Service/Delete.antt =====
-- What `delete` removes, and what a failed one leaves.
use mathlib.Core.Path.{subst}
use core_status.Base.{
  String, ◌≡◌, refl, ap, ◌∙◌, Bool, not, List, [], ◌∷◌, arith, ===_iff, In, select, inl, inr,
  In-select, Option, some, none,
}
use core_status.Data.Errors.{Error, Result, ok, err, Result-cases, channel_group_removal_error}
use core_status.Data.Entities.{Grant}
use core_status.Effects.{World, Env, next, handle, throw, next-eq-ok}
use core_status.Effects.Laws.{IsTable}
use core_status.Subscribers.{remove_from_channel_group}
use core_status.Subscribers.Laws.{remove_from_channel_group-SameTables}
use core_status.Grants.Service.{get, is_own, delete_grant, delete, first_deleted}

-- A lookup reads the world and leaves it.
pub get_same : (env : Env) (id owner_id : String) (w : World) → (get env id owner_id w).1 ≡ w
unfolding get
get_same env id owner_id w = ground arith

-- What is found is a grant of the table, with the id, and of the owner.
pub get_inv :
    (env : Env) (laws : IsTable env.grant_table) (id owner_id : String) (w w' : World) (g : Grant)
    → get env id owner_id w ≡ (ok g, w')
    → In g w.grants × (g.id ≡ id) × (g.owner_id ≡ owner_id) × (w' ≡ w)
unfolding get
get_inv env laws id owner_id w w' g h =
    elim (Result-cases (env.grant_table.find_one (is_own id owner_id) w.grants)) [
      | inr (e, failed) ↦ absurd (ground arith)
      | inl (found, e) ↦ go found e
    ]
  where
    go :
        (found : Option Grant)
        → env.grant_table.find_one (is_own id owner_id) w.grants ≡ ok found
        → In g w.grants × (g.id ≡ id) × (g.owner_id ≡ owner_id) × (w' ≡ w)
    go none e = absurd (ground arith)
    go (some x) e =
        let (i, own) = laws.find_one_some (is_own id owner_id) w.grants x e in
        let same : x ≡ g = ground arith in
        (
          subst (λ y. In y w.grants) same i,
          ground (arith, ===_iff x.id id),
          ground (arith, ===_iff x.owner_id owner_id),
          ground arith,
        )

-- the channel is left first; its failure is reported as such
leave_first :
    (env : Env) (g : Grant) (w w' : World) (r : Result (Unit {0}))
    → handle (remove_from_channel_group env g w) (λ e. throw channel_group_removal_error) ≡ (r, w')
    → w'.grants ≡ w.grants
leave_first env g w w' r h = ground (arith, remove_from_channel_group-SameTables env g w)

remaining_of_none :
    (p : Grant → Bool) (xs : List Grant) → select p xs ≡ [] → select (λ x. not (p x)) xs ≡ xs
remaining_of_none p [] h = refl
remaining_of_none p (x ∷ xs) h = ground (arith, remaining_of_none p xs)

-- the removal of the row, once the channel is left
removal_inv :
    (env : Env) (laws : IsTable env.grant_table) (id owner_id : String) (w w' : World) (g : Grant)
    → next (delete_grant env id owner_id w) (λ raw. first_deleted raw) ≡ (ok g, w')
    → In g (select (is_own id owner_id) w.grants)
      × (w'.grants ≡ select (λ x. not (is_own id owner_id x)) w.grants)
unfolding delete_grant
removal_inv env laws id owner_id w w' g h =
    elim (Result-cases (env.grant_table.remove (is_own id owner_id) w.grants)) [
      | inr (e, failed) ↦ absurd (ground arith)
      | inl ((gone, rows), e) ↦
          go gone rows e (laws.remove_takes (is_own id owner_id) w.grants gone rows e)
    ]
  where
    p : Grant → Bool
    p = is_own id owner_id

    go :
        (gone rows : List Grant)
        → env.grant_table.remove p w.grants ≡ ok (gone, rows)
        → (gone ≡ select p w.grants) × (rows ≡ select (λ x. not (p x)) w.grants)
        → In g (select p w.grants) × (w'.grants ≡ select (λ x. not (p x)) w.grants)
    go [] rows e takes = absurd (ground arith)
    go (x ∷ xs) rows e takes =
        let same : g ≡ x = ground arith in (rw (← takes.0) (inl same), ground arith)

-- A grant that is deleted was in the table, had the id, and was the caller's; exactly the rows of that id
-- and owner are gone.
pub delete_removes :
    (env : Env) (laws : IsTable env.grant_table) (id owner_id : String) (w w' : World) (g : Grant)
    → delete env id owner_id w ≡ (ok g, w')
    → In g w.grants
      × (g.id ≡ id)
      × (g.owner_id ≡ owner_id)
      × (w'.grants ≡ select (λ x. not (is_own id owner_id x)) w.grants)
unfolding delete
delete_removes env laws id owner_id w w' g h =
    let (grant, w₁, got, h₁) = next-eq-ok (get env id owner_id w) _ h in
    let (u, w₂, left, h₂) = next-eq-ok (handle (remove_from_channel_group env grant w₁) _) _ h₁ in
    let (there, rest) = removal_inv env laws id owner_id w₂ w' g h₂ in
    let tables : w₂.grants ≡ w.grants =
      leave_first env grant w₁ w₂ (ok u) left
      ∙ ap (λ (v : World). v.grants) (get_inv env laws id owner_id w w₁ grant got).3 in
    let (i, own) = In-select (is_own id owner_id) g w₂.grants there in
    (
      subst (λ rows. In g rows) tables i,
      (===_iff g.id id).0 (ground arith),
      (===_iff g.owner_id owner_id).0 (ground arith),
      rest ∙ ap (select (λ x. not (is_own id owner_id x))) tables,
    )

-- Where the channel cannot be left, the deletion fails with that error and no row is touched.
pub delete_channel_failure :
    (env : Env) (id owner_id : String) (w w₁ w₂ : World) (g : Grant) (e : Error)
    → get env id owner_id w ≡ (ok g, w₁)
    → remove_from_channel_group env g w₁ ≡ (err e, w₂)
    → (delete env id owner_id w ≡ (err channel_group_removal_error, w₂)) × (w₂.grants ≡ w.grants)
unfolding delete
delete_channel_failure env id owner_id w w₁ w₂ g e got failed =
    ground (arith, get_same env id owner_id w, remove_from_channel_group-SameTables env g w₁)
