-- ===== src/Grants/Service/Dates.antt =====
-- What `modifyRange` changes.
use mathlib.Core.Path.{subst}
use core_status.Base.{
  ℕ, String, ◌≡◌, refl, false, not, List, arith, ◌===◌, In, change, inl, inr, some,
}
use core_status.Data.Errors.{ok, err, Result-cases, grant_operation_not_allowed}
use core_status.Data.Entities.{Grant, GrantType, range, all, latest, is_grant_type}
use core_status.Data.Requests.{TimeRangeDto}
use core_status.Effects.{World, Env, next-eq-ok, throw_if, query}
use core_status.Effects.Laws.{IsTable}
use core_status.Grants.Service.{get, save_dates, modify_range, read_range}
use core_status.Grants.Service.Delete.{get_inv, get_same}

-- A grant whose dates are changed.
abbrev pub with_dates : ℕ → ℕ → Grant → Grant
with_dates from to g = record g { from_date = from; to_date = to }

is_range_inv : (t : GrantType) → not (is_grant_type t range) ≡ false → t ≡ range
is_range_inv range h = refl
is_range_inv all h = cc
is_range_inv latest h = cc

read_range_inv :
    (env : Env) (dates : TimeRangeDto) (read : ℕ × ℕ)
    → read_range env dates ≡ ok read
    → (env.database_date dates.from_date ≡ some read.0)
      × (env.database_date dates.to_date ≡ some read.1)
unfolding read_range
read_range_inv env dates read h = ground arith

save_dates_inv :
    (env : Env) (laws : IsTable env.grant_table) (id : String) (dates : ℕ × ℕ) (w w' : World)
    (hit : List Grant)
    → save_dates env id dates w ≡ (ok hit, w')
    → w'.grants ≡ change (λ x. x.id === id) (with_dates dates.0 dates.1) w.grants
unfolding save_dates
save_dates_inv env laws id dates w w' hit h =
    elim (Result-cases
      (env.grant_table.update (λ x. x.id === id) (with_dates dates.0 dates.1) w.grants)) [
        | inr (e, failed) ↦ absurd (ground arith)
        | inl ((touched, rows), e) ↦ ground (arith, laws.update_changes _ _ w.grants touched rows e)
      ]

-- Of a caller's `range` grant the dates alone are changed, to those of the request, and no other row is.
pub modify_range_changes :
    (env : Env) (laws : IsTable env.grant_table) (id owner_id : String) (dates : TimeRangeDto)
    (w w' : World) (g : Grant)
    → modify_range env id owner_id dates w ≡ (ok g, w')
    → (old : Grant) × (from : ℕ) × (to : ℕ) × In old w.grants
      × (old.id ≡ id)
      × (old.owner_id ≡ owner_id)
      × (old.type ≡ range)
      × (env.database_date dates.from_date ≡ some from)
      × (env.database_date dates.to_date ≡ some to)
      × (g ≡ with_dates from to old)
      × (w'.grants ≡ change (λ x. x.id === id) (with_dates from to) w.grants)
unfolding modify_range
modify_range_changes env laws id owner_id dates w w' g h =
    let (old, w₁, got, h₁) = next-eq-ok (get env id owner_id w) _ h in
    let (i, same_id, owner, same) = get_inv env laws id owner_id w w₁ old got in
    let (u, w₂, allowed, h₂) =
      next-eq-ok (throw_if (not (is_grant_type old.type range)) grant_operation_not_allowed w₁) _
        h₁ in
    let (read, w₃, dated, h₃) = next-eq-ok (query (λ v. read_range env dates) w₂) _ h₂ in
    let (hit, w₄, saved, h₄) = next-eq-ok (save_dates env old.id read w₃) _ h₃ in
    let (from, to) = read_range_inv env dates read (ground arith) in
    let back : w₃ ≡ w = ground arith in
    let done : w₄ ≡ w' = ground arith in
    (
      old,
      read.0,
      read.1,
      i,
      same_id,
      owner,
      is_range_inv old.type (ground arith),
      from,
      to,
      ground arith,
      subst
          (λ (v : World). w'.grants ≡ change (λ x. x.id === id) (with_dates read.0 read.1) v.grants)
          back
          (subst (λ s. w'.grants ≡ change (λ x. x.id === s) (with_dates read.0 read.1) w₃.grants)
            same_id
            (subst
              (λ (v : World).
                v.grants ≡ change (λ x. x.id === old.id) (with_dates read.0 read.1) w₃.grants)
              done (save_dates_inv env laws old.id read w₃ w₄ hit saved))),
    )

-- A grant of another type is refused, and nothing changes.
pub modify_range_refuses :
    (env : Env) (id owner_id : String) (dates : TimeRangeDto) (w w₁ : World) (g : Grant)
    → get env id owner_id w ≡ (ok g, w₁)
    → is_grant_type g.type range ≡ false
    → modify_range env id owner_id dates w ≡ (err grant_operation_not_allowed, w)
unfolding modify_range
modify_range_refuses env id owner_id dates w w₁ g got other =
    ground (arith, get_same env id owner_id w)
