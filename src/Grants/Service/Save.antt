-- ===== src/Grants/Service/Save.antt =====
-- What a successful `save` has checked, and what a failed one leaves.
use core_status.Base.{
  String, ◌≡◌, refl, true, Option, none, some, List, [], ◌∷◌, ◌++◌, arith, includes, ===_iff, inl,
  inr,
}
use mathlib.Core.Path.{subst}
use core_status.Data.Errors.{Error, ok, err, Result-cases}
use core_status.Data.Entities.{Grant, GrantType, Stream, StreamType, includes_type}
use core_status.Data.Requests.{GrantDto}
use core_status.Effects.{World, Env, next, next-eq-ok, next-eq-err}
use core_status.Effects.Laws.{IsTable, RollsBack}
use core_status.Access.{status_grants_create_historical, status_grants_create_live}
use core_status.Streams.{get_by_id}
use core_status.Subscribers.{after_insert}
use core_status.Subscribers.Laws.{after_insert-SameTables}
use core_status.Grants.Service.{
  save_grant, is_historical, is_live, check_scopes, save, allowed_owner,
}

-- The checks of scopes touch no table, and say what they let pass.
check_scopes_inv :
    (env : Env) (uuid : String) (dto : GrantDto) (scopes : List String) (w w' : World)
    → check_scopes env uuid dto scopes w ≡ (ok tt, w')
    → (w' ≡ w)
      × (is_historical dto.type ≡ true → includes scopes status_grants_create_historical ≡ true)
      × (is_live dto.type ≡ true → includes scopes status_grants_create_live ≡ true)
unfolding check_scopes
check_scopes_inv env uuid dto scopes w w' h = ground arith

check_scopes_same :
    (env : Env) (uuid : String) (dto : GrantDto) (scopes : List String) (w : World)
    → (check_scopes env uuid dto scopes w).1 ≡ w
unfolding check_scopes
check_scopes_same env uuid dto scopes w = ground arith

-- A grant is saved with its subscriber, or not at all.
save_grant_err :
    (env : Env) (rolls : RollsBack env) (dto : GrantDto) (w w' : World) (e : Error)
    → save_grant env dto w ≡ (err e, w')
    → w'.grants ≡ w.grants
unfolding save_grant
save_grant_err env rolls dto w w' e h = elim (Result-cases (env.grant_table.insert dto w.grants)) [
  | inr (x, failed) ↦ ground (arith, rolls w.grants w.grants)
  | inl ((g, rows), inserted) ↦
      (let v = record w { grants = rows } in
        ground (arith, rolls w.grants (after_insert env g v).1.grants))
]

pub save_grant_ok :
    (env : Env) (laws : IsTable env.grant_table) (dto : GrantDto) (w w' : World) (g : Grant)
    → save_grant env dto w ≡ (ok g, w')
    → (rows : List Grant) × (env.grant_table.insert dto w.grants ≡ ok (g, rows))
      × (w'.grants ≡ w.grants ++ g ∷ [])
unfolding save_grant
save_grant_ok env laws dto w w' g h = elim (Result-cases (env.grant_table.insert dto w.grants)) [
  | inr (e, failed) ↦ ground arith
  | inl ((x, rows), inserted) ↦
      (let same = after_insert-SameTables env x (record w { grants = rows }) in
        let adds = laws.insert_adds dto w.grants rows x inserted in
        (rows, ground arith, ground arith))
]

-- A grant that is saved has gone through its subscriber.
save_grant_inserts :
    (env : Env) (dto : GrantDto) (w w' : World) (g : Grant)
    → save_grant env dto w ≡ (ok g, w')
    → (v : World) × (after_insert env g v ≡ (ok tt, w'))
unfolding save_grant
save_grant_inserts env dto w w' g h = elim (Result-cases (env.grant_table.insert dto w.grants)) [
  | inr (e, failed) ↦ ground arith
  | inl ((x, rows), inserted) ↦
      (let v = record w { grants = rows } in
        elim (Result-cases (after_insert env x v).0) [
          | inl (a, through) ↦ (v, ground arith)
          | inr (e, failed) ↦ ground arith
        ])
]

-- What a caller needs for `save` to create the grant `g`.
pub record MaySave (env : Env) (uuid : String) (dto : GrantDto) (scopes : List String) (w : World)
    (g : Grant) : Type 0 where
  pub stream : Stream
  pub kind : StreamType
  pub found :
      env.find_stream_with_type dto.stream_id w.streams w.stream_types ≡ ok (some (stream, kind))
  pub owned : stream.owner_id ≡ uuid
  pub supported : includes_type kind.supported_grants dto.type ≡ true
  pub historical :
      is_historical dto.type ≡ true → includes scopes status_grants_create_historical ≡ true
  pub live : is_live dto.type ≡ true → includes scopes status_grants_create_live ≡ true
  pub rows : List Grant
  pub inserted : env.grant_table.insert (record dto { owner_id = uuid }) w.grants ≡ ok (g, rows)

pub allowed_owner_inv :
    (uuid owner : String) (type : GrantType) (found : Option (Stream × StreamType)) (w w' : World)
    → allowed_owner uuid type found w ≡ (ok owner, w')
    → (s : Stream) × (k : StreamType) × (found ≡ some (s, k))
      × (s.owner_id ≡ uuid)
      × (includes_type k.supported_grants type ≡ true)
      × (owner ≡ uuid)
      × (w' ≡ w)
allowed_owner_inv uuid owner type none w w' h = ground arith
allowed_owner_inv uuid owner type (some (s, k)) w w' h = (
  s,
  k,
  refl,
  ground (arith, ===_iff uuid s.owner_id),
  ground arith,
  ground (arith, ===_iff uuid s.owner_id),
  ground arith,
)

-- A grant that is saved was for a stream of the caller, of a type that the stream supports, under the
-- scopes that its type needs; it is stored with the caller as its owner, and no other row changes.
pub save-MaySave :
    (env : Env) (laws : IsTable env.grant_table) (uuid : String) (dto : GrantDto)
    (scopes : List String) (w w' : World) (g : Grant)
    → save env uuid dto scopes w ≡ (ok g, w')
    → MaySave env uuid dto scopes w g × (w'.grants ≡ w.grants ++ g ∷ [])
unfolding save get_by_id
save-MaySave env laws uuid dto scopes w w' g h =
    let (u, w₁, checked, h₁) = next-eq-ok (check_scopes env uuid dto scopes w) _ h in
    let (same, historical, live) = check_scopes_inv env uuid dto scopes w w₁ checked in
    let (found, w₂, got, h₂) = next-eq-ok (get_by_id env dto.stream_id w₁) _ h₁ in
    let (owner, w₃, allowed, h₃) = next-eq-ok (allowed_owner uuid dto.type found w₂) _ h₂ in
    let (s, k, f, owned, supported, eo, sw) =
      allowed_owner_inv uuid owner dto.type found w₂ w₃ allowed in
    let (rows, inserted, grew) =
      save_grant_ok env laws (record dto { owner_id = owner }) w₃ w' g h₃ in
    let back : w₃ ≡ w = ground arith in
    (
      record {
        stream = s;
        kind = k;
        found = ground arith;
        owned = owned;
        supported = supported;
        historical = historical;
        live = live;
        rows = rows;
        inserted =
            subst
              (λ (v : World).
                env.grant_table.insert (record dto { owner_id = uuid }) v.grants ≡ ok (g, rows))
              back
              (subst
                (λ o. env.grant_table.insert (record dto { owner_id = o }) w₃.grants ≡ ok (g, rows))
                eo inserted);
      },
      subst (λ (v : World). w'.grants ≡ v.grants ++ g ∷ []) back grew,
    )

-- A grant that is saved has gone through its subscriber.
pub save-after_insert :
    (env : Env) (uuid : String) (dto : GrantDto) (scopes : List String) (w w' : World) (g : Grant)
    → save env uuid dto scopes w ≡ (ok g, w')
    → (v : World) × (after_insert env g v ≡ (ok tt, w'))
unfolding save
save-after_insert env uuid dto scopes w w' g h =
    let (_, w₁, checked, h₁) = next-eq-ok (check_scopes env uuid dto scopes w) _ h in
    let (found, w₂, got, h₂) = next-eq-ok (get_by_id env dto.stream_id w₁) _ h₁ in
    let (owner, w₃, allowed, h₃) = next-eq-ok (allowed_owner uuid dto.type found w₂) _ h₂ in
    save_grant_inserts env (record dto { owner_id = owner }) w₃ w' g h₃

rest_err :
    (env : Env) (rolls : RollsBack env) (uuid : String) (dto : GrantDto)
    (found : Option (Stream × StreamType)) (w w' : World) (e : Error)
    → next
        (allowed_owner uuid dto.type found w)
        (λ owner. save_grant env (record dto { owner_id = owner }))
      ≡ (err e, w')
    → w'.grants ≡ w.grants
rest_err env rolls uuid dto none w w' e h = ground arith
rest_err env rolls uuid dto (some (s, k)) w w' e h =
    ground (arith, save_grant_err env rolls (record dto { owner_id = s.owner_id }) w w' e)

-- A refused or failed `save` leaves the table of grants as it was, where TypeORM rolls back.
save-err :
    (env : Env) (rolls : RollsBack env) (uuid : String) (dto : GrantDto) (scopes : List String)
    (w w' : World) (e : Error)
    → save env uuid dto scopes w ≡ (err e, w')
    → w'.grants ≡ w.grants
unfolding save get_by_id
save-err env rolls uuid dto scopes w w' e h =
    elim (next-eq-err (check_scopes env uuid dto scopes w) _ h) [
      | inl refused ↦ ground (arith, check_scopes_same env uuid dto scopes w)
      | inr (u, w₁, checked, h₁) ↦
          (let same = (check_scopes_inv env uuid dto scopes w w₁ checked).0 in
            elim (next-eq-err (get_by_id env dto.stream_id w₁) _ h₁) [
              | inl failed ↦ ground arith
              | inr (found, w₂, got, h₂) ↦
                  ground (arith, rest_err env rolls uuid dto found w₂ w' e h₂)
            ])
    ]
