-- ===== src/Status/Read/Granted.antt =====
-- What the holder of grants is served, and that a passed check leaves no update without a grant.
use mathlib.Core.Path.{subst}
use core_status.Base.{
  ℕ, String, ◌≡◌, ◌≤◌, refl, Bool, true, some, List, [], ◌∷◌, arith, ===_iff, In, find, find_of_In,
  le→leb, inl, inr,
}
use core_status.Data.Errors.{ok}
use core_status.Data.Entities.{Grant, Update}
use core_status.Data.Requests.{TimeRangeDto}
use core_status.Effects.{World, Env, M, next-eq-ok, map_calls, pure-eq-ok, query}
use core_status.Effects.Laws.{IsTable}
use core_status.Grants.Range.{check_continuous_range}
use core_status.Grants.Range.Coverage.{IsSortBy, check_continuous_range_sound}
use core_status.Grants.Service.{meets, get_by_range}
use core_status.Status.Read.{
  Served, grant_covers, in_range, re_encrypt_and_cache, serve, get_user_status_by_stream_id,
}

-- `find` with an order answers with rows of the table that satisfy the condition.
abbrev pub FindsUpdates : Env → Type 0
FindsUpdates env =
    (p : Update → Bool) (rows found : List Update)
    → env.find_updates_by_upload p rows ≡ ok found
    → (u : Update) → In u found
    → In u rows × (p u ≡ true)

-- The grant is for this reader and stream, and is in the table.
abbrev pub IsGrantFor : String → String → World → Grant → Type 0
IsGrantFor recipient_id stream_id w g =
    In g w.grants × (g.recipient_id ≡ recipient_id) × (g.stream_id ≡ stream_id)

pub get_by_range_inv :
    (env : Env) (laws : IsTable env.grant_table) (r s : String) (range : TimeRangeDto)
    (w w' : World) (grants : List Grant)
    → get_by_range env r s range w ≡ (ok grants, w')
    → (w' ≡ w) × ((g : Grant) → In g grants → IsGrantFor r s w g)
unfolding get_by_range meets
get_by_range_inv env laws r s range w w' grants h = (
  ground arith,
  λ g i.
      let (row, test) = laws.find_sound (meets env r s range) w.grants grants (ground arith) g i in
      (row, ground (arith, ===_iff g.recipient_id r), ground (arith, ===_iff g.stream_id s)),
)

In-step :
    {A B : Type 0} (Q : A → B → Type 0) (x : A) (xs : List A) (y b : B) (bs : List B)
    → Q x b
    → (In y bs → (z : A) × In z xs × Q z y)
    → In y (b ∷ bs)
    → (z : A) × In z (x ∷ xs) × Q z y
In-step Q x xs y b bs q rec (inl e) = (x, inl refl, rw e q)
In-step Q x xs y b bs q rec (inr j) = let (z, k, t) = rec j in (z, inr k, t)

-- What each call of `Promise.all` returns holds of each element of the answer.
map_calls_inv :
    {A B : Type 0} (Q : A → B → Type 0) (f : A → M B)
    → ((x : A) (w w' : World) (y : B) → f x w ≡ (ok y, w') → Q x y)
    → (xs : List A) (w w' : World) (ys : List B) → map_calls f xs w ≡ (ok ys, w')
    → (y : B) → In y ys
    → (x : A) × In x xs × Q x y
map_calls_inv Q f each [] w w' ys h y i =
    absurd (rw (← (pure-eq-ok {a = []} {b = ys} {w = w} {w' = w'} h).0) at i)
map_calls_inv Q f each (x ∷ xs) w w' ys h y i =
    let (b, w₁, first, h₁) = next-eq-ok (f x w) _ h in
    let (bs, w₂, rest, h₂) = next-eq-ok (map_calls f xs w₁) _ h₁ in
    In-step Q x xs y b bs (each x w w₁ b first) (λ j. map_calls_inv Q f each xs w₁ w₂ bs rest y j)
      (rw (← (pure-eq-ok {a = b ∷ bs} {b = ys} {w = w₂} {w' = w'} h₂).0) at i)

module _ (env : Env) (sorts : IsSortBy env.sort_by_from_date) (laws : IsTable env.grant_table)
    (r s : String) (range : TimeRangeDto) (lo hi : ℕ) (from : env.date range.from_date ≡ some lo)
    (to : env.date range.to_date ≡ some hi) where
  -- Where the check has passed, every instant of the range is covered by a grant of the reader, and the `find`
  -- of the code hits one.
  pub grant_found :
      (w w' : World) (grants : List Grant)
      → get_by_range env r s range w ≡ (ok grants, w')
      → check_continuous_range env.sort_by_from_date env.date grants range ≡ ok tt
      → (t : ℕ) → lo ≤ t
      → t ≤ hi
      → (g : Grant) × (find (grant_covers t) grants ≡ some g)
        × IsGrantFor r s w g
        × (g.from_date ≤ t)
        × (t ≤ g.to_date)
  grant_found w w' grants got passed t a b =
      let (g, i, cover) =
        check_continuous_range_sound env.sort_by_from_date sorts env.date range lo hi from to grants
          passed t a b in
      let (x, found, covers, j) =
        find_of_In (grant_covers t) g grants i (rw (le→leb _ _ cover.0) (le→leb _ _ cover.1)) in
      (
        x,
        found,
        (get_by_range_inv env laws r s range w w' grants got).1 x j,
        ground arith,
        ground arith,
      )

  pub serve_update :
      (grants : List Grant) (u : Update) (w w' : World) (y : Served)
      → serve env r s grants u w ≡ (ok y, w')
      → y.update ≡ u
  unfolding serve re_encrypt_and_cache
  serve_update grants u w w' y h = ground arith

  -- A reader is served nothing but updates of the stream that were recorded in the requested range, each of
  -- them at an instant that a grant of the reader covers.
  pub served_is_granted :
      (finds : FindsUpdates env) (from_same : env.database_date range.from_date ≡ some lo)
      (to_same : env.database_date range.to_date ≡ some hi) (w w' : World) (served : List Served)
      (y : Served)
      → get_user_status_by_stream_id env r s range w ≡ (ok served, w')
      → In y served
      → In y.update w.updates
        × (y.update.stream_id ≡ s)
        × (lo ≤ y.update.recorded_at)
        × (y.update.recorded_at ≤ hi)
        × ((g : Grant) × IsGrantFor r s w g
            × (g.from_date ≤ y.update.recorded_at)
            × (y.update.recorded_at ≤ g.to_date))
  unfolding get_user_status_by_stream_id
  served_is_granted finds from_same to_same w w' served y h i =
      let (grants, w₁, got, h₁) = next-eq-ok (get_by_range env r s range w) _ h in
      let same = (get_by_range_inv env laws r s range w w₁ grants got).0 in
      let (u, w₂, passed, h₂) =
        next-eq-ok
          (query (λ v. check_continuous_range env.sort_by_from_date env.date grants range) w₁) _
          h₁ in
      let (updates, w₃, found, h₃) =
        next-eq-ok (query (λ v. env.find_updates_by_upload (in_range env s range) v.updates) w₂) _
          h₂ in
      let (x, j, e) =
        map_calls_inv (λ u z. z.update ≡ u) (serve env r s grants) (serve_update grants) updates w₃
          w' served h₃ y i in
      let (row, test) = finds (in_range env s range) w₂.updates updates (ground arith) x j in
      let back : w₂ ≡ w = ground arith in
      let bounds : (lo ≤ x.recorded_at) × (x.recorded_at ≤ hi) = ground arith in
      let (g, hit, grant, a, b) =
        grant_found w w₁ grants got (ground arith) x.recorded_at bounds.0 bounds.1 in
      rw e (
        subst (λ (v : World). In x v.updates) back row,
        ground (arith, ===_iff x.stream_id s),
        bounds.0,
        bounds.1,
        (g, grant, a, b),
      )
