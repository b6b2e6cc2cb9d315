-- ===== src/Grants/Service/Race.antt =====
-- Two requests at once: `save` checks before it writes, and nothing holds the table in between.
use core_status.Base.{
  ℕ, String, ◌≡◌, ◌≤◌, refl, sym, ◌∙◌, true, inl, inr, List, arith, ===_iff, length, select, ◌+◌,
  length-select-append,
}
use core_status.Data.Errors.{Error, ok, err, Result-cases}
use core_status.Data.Entities.{Grant, latest}
use core_status.Data.Requests.{GrantDto}
use core_status.Effects.{World, Env, M, pure, ◌>>=◌, ◌>>◌, next-eq-ok, pure-eq-ok}
use core_status.Effects.Laws.{IsTable}
use core_status.Streams.{get_by_id}
use core_status.Grants.Service.{is_singleton, check_scopes, allowed_owner, save_grant, save}
use core_status.Grants.Service.Save.{allowed_owner_inv, save_grant_ok}
use core_status.Grants.Service.Singleton.{StoresGrant, none_before}

-- `save` up to its last `await`: the checks, and the owner that they find
unfoldable pub check : Env → String → GrantDto → List String → M String
unfolding check_scopes get_by_id
check env uuid dto scopes = do
  check_scopes env uuid dto scopes
  stream ← get_by_id env dto.stream_id
  allowed_owner uuid dto.type stream

-- the rest of `save`
unfoldable pub write : Env → GrantDto → String → M Grant
unfolding save_grant
write env dto owner = save_grant env (record dto { owner_id = owner })

-- Two requests of one user, of which the second is checked before the first is written.
unfoldable pub save_crossed : Env → String → GrantDto → GrantDto → List String → M (Grant × Grant)
unfolding check write
save_crossed env uuid dto dto' scopes = do
  owner ← check env uuid dto scopes
  owner' ← check env uuid dto' scopes
  g ← write env dto owner
  g' ← write env dto' owner'
  pure (g, g')

check_owner :
    (env : Env) (uuid owner : String) (dto : GrantDto) (scopes : List String) (w w' : World)
    → check env uuid dto scopes w ≡ (ok owner, w')
    → owner ≡ uuid
unfolding check
check_owner env uuid owner dto scopes w w' h =
    let (u, w₁, checked, h₁) = next-eq-ok (check_scopes env uuid dto scopes w) _ h in
    let (found, w₂, got, h₂) = next-eq-ok (get_by_id env dto.stream_id w₁) _ h₁ in
    let (s, k, f, owned, supported, same, back) =
      allowed_owner_inv uuid owner dto.type found w₂ w' h₂ in
    same

-- A written grant that is `latest` counts for its stream, owner and recipient.
write_counts :
    (env : Env) (laws : IsTable env.grant_table) (stores : StoresGrant env) (dto : GrantDto)
    (o owner stream_id recipient_id : String) (w w' : World) (g : Grant)
    → o ≡ owner
    → dto.type ≡ latest
    → dto.stream_id ≡ stream_id
    → dto.recipient_id ≡ recipient_id
    → write env dto o w ≡ (ok g, w')
    → length (select (is_singleton stream_id owner recipient_id) w'.grants)
      ≡ length (select (is_singleton stream_id owner recipient_id) w.grants) + 1
unfolding write
write_counts env laws stores dto o owner stream_id recipient_id w w' g same type of_stream to h =
    let (rows, inserted, grown) = save_grant_ok env laws (record dto { owner_id = o }) w w' g h in
    let (a, b, c, d) = stores (record dto { owner_id = o }) w.grants rows g inserted in
    let counts : is_singleton stream_id owner recipient_id g ≡ true = ground (
      arith,
      ===_iff g.stream_id stream_id,
      ===_iff g.owner_id owner,
      ===_iff g.recipient_id recipient_id,
    ) in
    rw grown
      (length-select-append (is_singleton stream_id owner recipient_id) w.grants g ∙ rw counts refl)

-- One request alone is the check and the write in a row.
save-check :
    (env : Env) (uuid : String) (dto : GrantDto) (scopes : List String) (w : World)
    → save env uuid dto scopes w ≡ (check env uuid dto scopes >>= write env dto) w
unfolding save check write
save-check env uuid dto scopes w = ground arith

-- The check of a `latest` grant finds none.
check_counts :
    (env : Env) (laws : IsTable env.grant_table) (uuid owner : String) (dto : GrantDto)
    (scopes : List String) (w w' : World)
    → dto.type ≡ latest
    → check env uuid dto scopes w ≡ (ok owner, w')
    → length (select (is_singleton dto.stream_id uuid dto.recipient_id) w.grants) ≡ 0
unfolding check
check_counts env laws uuid owner dto scopes w w' type h =
    let (u, w₁, checked, _) = next-eq-ok (check_scopes env uuid dto scopes w) _ h in
    rw (none_before env laws uuid dto scopes w w₁ checked (rw type refl)) refl

-- A `latest` grant that is saved by itself counts.
saved_counts :
    (env : Env) (laws : IsTable env.grant_table) (stores : StoresGrant env) (uuid : String)
    (dto : GrantDto) (scopes : List String) (w v : World) (x : Grant)
    → dto.type ≡ latest
    → save env uuid dto scopes w ≡ (ok x, v)
    → 1 ≤ length (select (is_singleton dto.stream_id uuid dto.recipient_id) v.grants)
saved_counts env laws stores uuid dto scopes w v x type h =
    let (o, u, checked, h₁) =
      next-eq-ok (check env uuid dto scopes w) (write env dto)
        (sym (save-check env uuid dto scopes w) ∙ h) in
    let one =
      write_counts env laws stores dto o uuid dto.stream_id dto.recipient_id u v x
        (check_owner env uuid o dto scopes w u checked) type refl refl h₁ in
    omega (arith, one)

-- After a `latest` grant was saved, another one of the same stream and recipient is refused.
second_refused :
    (env : Env) (laws : IsTable env.grant_table) (stores : StoresGrant env) (uuid : String)
    (dto dto' : GrantDto) (scopes : List String) (w v : World) (x : Grant)
    → dto.type ≡ latest
    → dto'.type ≡ latest
    → dto'.stream_id ≡ dto.stream_id
    → dto'.recipient_id ≡ dto.recipient_id
    → save env uuid dto scopes w ≡ (ok x, v)
    → (e : Error) × ((save env uuid dto' scopes v).0 ≡ err e)
second_refused env laws stores uuid dto dto' scopes w v x type type' of_stream to first =
    elim (Result-cases (save env uuid dto' scopes v).0) [
      | inr failed ↦ failed
      | inl (y, succeeds) ↦
          (let (o, u, checked, _) = next-eq-ok (check env uuid dto' scopes v) (write env dto') (
              sym (save-check env uuid dto' scopes v) ∙ λ i.
              (succeeds i, (save env uuid dto' scopes v).1)) in
            let empty = check_counts env laws uuid o dto' scopes v u type' checked in
            absurd (
              omega (
                arith,
                rw (of_stream, to) at empty,
                saved_counts env laws stores uuid dto scopes w v x type first,
              )))
    ]

-- Two requests of a user for a `latest` grant of one stream and recipient: where they cross, the second being checked
-- before the first is written, and both succeed, there was no such grant before and there are two after; but where the
-- second is made after the first has succeeded, it is refused.
pub save_crossed_doubles :
    (env : Env) (laws : IsTable env.grant_table) (stores : StoresGrant env) (uuid : String)
    (dto dto' : GrantDto) (scopes : List String) (w w' v : World) (g g' x : Grant)
    → dto.type ≡ latest
    → dto'.type ≡ latest
    → dto'.stream_id ≡ dto.stream_id
    → dto'.recipient_id ≡ dto.recipient_id
    → save_crossed env uuid dto dto' scopes w ≡ (ok (g, g'), w')
    → save env uuid dto scopes w ≡ (ok x, v)
    → (length (select (is_singleton dto.stream_id uuid dto.recipient_id) w.grants) ≡ 0)
      × (2 ≤ length (select (is_singleton dto.stream_id uuid dto.recipient_id) w'.grants))
      × ((e : Error) × ((save env uuid dto' scopes v).0 ≡ err e))
unfolding save_crossed
save_crossed_doubles env laws stores uuid dto dto' scopes w w' v g g' x type type' of_stream to h
      alone =
    let (o, w₁, checked, h₁) = next-eq-ok (check env uuid dto scopes w) _ h in
    let (o', w₂, checked', h₂) = next-eq-ok (check env uuid dto' scopes w₁) _ h₁ in
    let (x, w₃, first, h₃) = next-eq-ok (write env dto o w₂) _ h₂ in
    let (y, w₄, second, h₄) = next-eq-ok (write env dto' o' w₃) _ h₃ in
    let mine = check_owner env uuid o dto scopes w w₁ checked in
    let mine' = check_owner env uuid o' dto' scopes w₁ w₂ checked' in
    let one =
      write_counts env laws stores dto o uuid dto.stream_id dto.recipient_id w₂ w₃ x mine type refl
        refl first in
    let two =
      write_counts env laws stores dto' o' uuid dto.stream_id dto.recipient_id w₃ w₄ y mine' type'
        of_stream to second in
    let last = (pure-eq-ok {a = (x, y)} {b = (g, g')} {w = w₄} {w' = w'} h₄).1 in
    (
      check_counts env laws uuid o dto scopes w w₁ type checked,
      rw (← last) (three _ _ _ one two),
      second_refused env laws stores uuid dto dto' scopes w v _ type type' of_stream to alone,
    )
  where
    three : (a b c : ℕ) → b ≡ a + 1 → c ≡ b + 1 → 2 ≤ c
    three a b c one two = omega (arith, one, two)
