-- ===== src/Status/Read/Complete.antt =====
-- Which updates a request that succeeds is answered with.
use mathlib.Core.Path.{subst}
use core_status.Base.{
  ℕ, String, ◌≡◌, ◌≤◌, ◌↔◌, refl, Bool, true, some, List, [], ◌∷◌, arith, ===_iff, In, le→leb, inl,
  inr,
}
use core_status.Data.Errors.{ok}
use core_status.Data.Entities.{Update}
use core_status.Data.Requests.{TimeRangeDto}
use core_status.Effects.{World, Env, M, next-eq-ok, map_calls, pure-eq-ok, query}
use core_status.Effects.Laws.{IsTable}
use core_status.Grants.Range.{check_continuous_range}
use core_status.Grants.Range.Coverage.{IsSortBy}
use core_status.Grants.Service.{get_by_range}
use core_status.Status.Read.{Served, in_range, serve, get_user_status_by_stream_id}
use core_status.Status.Read.Granted.{
  FindsUpdates, served_is_granted, get_by_range_inv, serve_update,
}

-- `find` with an order answers with every row that satisfies the condition.
abbrev pub FindsAll : Env → Type 0
FindsAll env =
    (p : Update → Bool) (rows found : List Update)
    → env.find_updates_by_upload p rows ≡ ok found
    → (u : Update) → In u rows
    → p u ≡ true
    → In u found

-- Each element has an answer of which the relation holds.
map_calls_all :
    {A B : Type 0} (Q : A → B → Type 0) (f : A → M B)
    → ((x : A) (w w' : World) (y : B) → f x w ≡ (ok y, w') → Q x y)
    → (xs : List A) (w w' : World) (ys : List B) → map_calls f xs w ≡ (ok ys, w')
    → (x : A) → In x xs
    → (y : B) × In y ys × Q x y
map_calls_all Q f each [] w w' ys h x i = absurd i
map_calls_all Q f each (z ∷ zs) w w' ys h x i =
    let (b, w₁, first, h₁) = next-eq-ok (f z w) _ h in
    let (bs, w₂, rest, h₂) = next-eq-ok (map_calls f zs w₁) _ h₁ in
    rw (← (pure-eq-ok {a = b ∷ bs} {b = ys} {w = w₂} {w' = w'} h₂).0) (elim i [
      | inl same ↦ (b, inl refl, rw same (each z w w₁ b first))
      | inr later ↦
          (let (y, j, q) = map_calls_all Q f each zs w₁ w₂ bs rest x later in (y, inr j, q))
    ])

module _ (env : Env) (sorts : IsSortBy env.sort_by_from_date) (laws : IsTable env.grant_table)
    (r s : String) (range : TimeRangeDto) (lo hi : ℕ) (from : env.date range.from_date ≡ some lo)
    (to : env.date range.to_date ≡ some hi) where
  -- A request that succeeds is answered with exactly the updates of the stream that were recorded in the requested range.
  pub served_iff :
      (finds : FindsUpdates env) (finds_all : FindsAll env)
      (from_same : env.database_date range.from_date ≡ some lo)
      (to_same : env.database_date range.to_date ≡ some hi) (w w' : World) (served : List Served)
      (u : Update)
      → get_user_status_by_stream_id env r s range w ≡ (ok served, w')
      → ((y : Served) × In y served × (y.update ≡ u))
        ↔ (In u w.updates × (u.stream_id ≡ s) × (lo ≤ u.recorded_at) × (u.recorded_at ≤ hi))
  unfolding get_user_status_by_stream_id
  served_iff finds finds_all from_same to_same w w' served u h = (
    λ (y, i, e).
        let (row, stream, a, b, g) =
          served_is_granted env sorts laws r s range lo hi from to finds from_same to_same w w'
            served y h i in
        rw (← e) (row, stream, a, b),
    λ (row, stream, a, b).
        let (grants, w₁, got, h₁) = next-eq-ok (get_by_range env r s range w) _ h in
        let same = (get_by_range_inv env laws r s range w w₁ grants got).0 in
        let (t, w₂, passed, h₂) =
          next-eq-ok
            (query (λ v. check_continuous_range env.sort_by_from_date env.date grants range) w₁) _
            h₁ in
        let (updates, w₃, found, h₃) =
          next-eq-ok (query (λ v. env.find_updates_by_upload (in_range env s range) v.updates) w₂) _
            h₂ in
        let back : w ≡ w₂ = ground arith in
        let test : in_range env s range u ≡ true =
          ground
            (arith, ===_iff u.stream_id s, le→leb lo u.recorded_at a, le→leb u.recorded_at hi b) in
        let there =
          finds_all (in_range env s range) w₂.updates updates (ground arith) u
            (subst (λ (v : World). In u v.updates) back row) test in
        let (y, j, e) =
          map_calls_all (λ x z. z.update ≡ x) (serve env r s grants)
            (serve_update env sorts laws r s range lo hi from to grants) updates w₃ w' served h₃ u
            there in
        (y, j, e),
  )
