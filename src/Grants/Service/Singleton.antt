-- ===== src/Grants/Service/Singleton.antt =====
-- The singleton rule of `avoidExistingSingletonGrant`, and what it leaves out.
use core_status.Base.{
  String, ◌≡◌, ◌≤◌, refl, Bool, true, List, [], ◌∷◌, arith, includes, ===_iff, In, length, select,
  Bool-cases, inl, inr, length-select-append, select_none, select-In,
}
use core_status.Data.Errors.{ok, Result-cases}
use core_status.Data.Entities.{Grant, GrantType, range, all, latest, is_grant_type}
use core_status.Data.Requests.{GrantDto}
use core_status.Effects.{World, Env, next-eq-ok}
use core_status.Effects.Laws.{IsTable}
use core_status.Access.{status_grants_create_historical, status_grants_create_live}
use core_status.Grants.Service.{is_singleton, is_empty, is_live, check_scopes, save}
use core_status.Grants.Service.Save.{save-MaySave}

-- A saved row holds the columns of what is saved.
abbrev pub StoresGrant : Env → Type 0
StoresGrant env =
    (dto : GrantDto) (rows rows' : List Grant) (g : Grant)
    → env.grant_table.insert dto rows ≡ ok (g, rows')
    → (g.stream_id ≡ dto.stream_id)
      × (g.owner_id ≡ dto.owner_id)
      × (g.recipient_id ≡ dto.recipient_id)
      × (g.type ≡ dto.type)

-- Of each stream, owner and recipient there is at most one `latest` grant.
abbrev pub HasSingletons : List Grant → Type 0
HasSingletons grants =
    (stream_id owner_id recipient_id : String)
    → length (select (is_singleton stream_id owner_id recipient_id) grants) ≤ 1

checked_singleton :
    (env : Env) (uuid : String) (dto : GrantDto) (scopes : List String) (w w' : World)
    → check_scopes env uuid dto scopes w ≡ (ok tt, w')
    → is_live dto.type ≡ true
    → (found : List Grant) × (env.grant_table.find
          (is_singleton dto.stream_id uuid dto.recipient_id)
          w.grants
        ≡ ok found)
      × (is_empty found ≡ true)
unfolding check_scopes
checked_singleton env uuid dto scopes w w' h live =
    elim (Result-cases
      (env.grant_table.find (is_singleton dto.stream_id uuid dto.recipient_id) w.grants)) [
        | inl (found, e) ↦ (found, e, ground arith)
        | inr (x, e) ↦ absurd (ground arith)
      ]

pub none_before :
    (env : Env) (laws : IsTable env.grant_table) (uuid : String) (dto : GrantDto)
    (scopes : List String) (w w' : World)
    → check_scopes env uuid dto scopes w ≡ (ok tt, w')
    → is_live dto.type ≡ true
    → select (is_singleton dto.stream_id uuid dto.recipient_id) w.grants ≡ []
none_before env laws uuid dto scopes w w' h live =
    let (found, e, empty) = checked_singleton env uuid dto scopes w w' h live in
    let p = is_singleton dto.stream_id uuid dto.recipient_id in
    select_none p w.grants λ x i. elim (Bool-cases (p x)) [
      | inl yes_it_is ↦
          absurd (nothing found x (laws.find_complete p w.grants found e x i yes_it_is) empty)
      | inr it_is_not ↦ it_is_not
    ]
  where
    nothing : (found : List Grant) (x : Grant) → In x found → is_empty found ≡ true → ⊥
    nothing [] x i e = i
    nothing (y ∷ ys) x i e = cc

-- What a grant that counts for a triple says of it.
is_singleton_inv :
    (s o r : String) (g : Grant)
    → is_singleton s o r g ≡ true
    → (g.stream_id ≡ s)
      × (g.owner_id ≡ o)
      × (g.recipient_id ≡ r)
      × (is_grant_type g.type latest ≡ true)
is_singleton_inv s o r g h =
    ground (arith, ===_iff g.stream_id s, ===_iff g.owner_id o, ===_iff g.recipient_id r)

is_live_of_latest : (t : GrantType) → is_grant_type t latest ≡ true → is_live t ≡ true
is_live_of_latest range h = h
is_live_of_latest all h = refl
is_live_of_latest latest h = refl

-- `save`, with no other request in between, keeps the rule that of each stream, owner and recipient there is at most one `latest` grant.
pub save-HasSingletons :
    (env : Env) (laws : IsTable env.grant_table) (stores : StoresGrant env) (uuid : String)
    (dto : GrantDto) (scopes : List String) (w w' : World) (g : Grant)
    → HasSingletons w.grants
    → save env uuid dto scopes w ≡ (ok g, w')
    → HasSingletons w'.grants
unfolding save
save-HasSingletons env laws stores uuid dto scopes w w' g before h s o r =
    let (may, grew) = save-MaySave env laws uuid dto scopes w w' g h in
    let (u, w₁, checked, _) = next-eq-ok (check_scopes env uuid dto scopes w) _ h in
    let columns = stores (record dto { owner_id = uuid }) w.grants may.rows g may.inserted in
    let count = length-select-append (is_singleton s o r) w.grants g in
    rw (grew, count)
      (elim (Bool-cases (is_singleton s o r g)) [
        | inr other ↦ rw other (omega (arith, before s o r))
        | inl same ↦
            (let (es, eo, er, type) = is_singleton_inv s o r g same in
              let empty =
                none_before env laws uuid dto scopes w w₁ checked
                  (is_live_of_latest dto.type (rw columns.3 at type)) in
              rw same (rw (← es, ← eo, ← er, columns.0, columns.1, columns.2, empty) (omega arith)))
      ])

-- A second `all` grant is not refused: where the scopes and the stream allow one, and there is no `latest`
-- grant, the checks let it pass whatever `all` grants there are.
pub second_all_passes :
    (env : Env) (laws : IsTable env.grant_table) (uuid : String) (dto : GrantDto)
    (scopes : List String) (w : World) (found : List Grant)
    → dto.type ≡ all
    → includes scopes status_grants_create_historical ≡ true
    → includes scopes status_grants_create_live ≡ true
    → env.grant_table.find (is_singleton dto.stream_id uuid dto.recipient_id) w.grants ≡ ok found
    → select (is_singleton dto.stream_id uuid dto.recipient_id) w.grants ≡ []
    → check_scopes env uuid dto scopes w ≡ (ok tt, w)
unfolding check_scopes
second_all_passes env laws uuid dto scopes w found type h l e none_latest = ground (
  arith,
  empty found (λ x i.
      select-In p x w.grants (laws.find_sound p w.grants found e x i).0
        (laws.find_sound p w.grants found e x i).1),
)
  where
    p : Grant → Bool
    p = is_singleton dto.stream_id uuid dto.recipient_id

    empty :
        (xs : List Grant) → ((x : Grant) → In x xs → In x (select p w.grants)) → is_empty xs ≡ true
    empty [] h = refl
    empty (x ∷ xs) h = absurd (rw none_latest at (h x (inl refl)))
