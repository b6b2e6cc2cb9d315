-- ===== src/Status/Read/Succeeds.antt =====
-- When a reader's request succeeds.
use core_status.Base.{
  ℕ, suc, String, ◌≡◌, ◌≢◌, ◌≤◌, ◌<◌, refl, Bool, Bool-cases, true, some, List, [], ◌∷◌, arith,
  ===_iff, In, le→leb, inl, inr, find,
}
use core_status.Data.Errors.{ok}
use core_status.Data.Json.{str, truthy}
use core_status.Data.Entities.{Grant, GrantProperties, Update}
use core_status.Data.Requests.{TimeRangeDto}
use core_status.Effects.{World, Env, Strings, M, map_calls}
use core_status.Effects.Laws.{IsTable}
use core_status.Cache.{get, set, read_value, write_value, build_status_update_key}
use core_status.Pre.{re_encrypt_payload}
use core_status.Grants.Range.{check_continuous_range}
use core_status.Grants.Range.Coverage.{IsSortBy, check_continuous_range_iff}
use core_status.Grants.Service.{meets, get_by_range}
use core_status.Status.Read.{
  Served, grant_covers, in_range, re_encrypt_and_cache, serve, get_user_status_by_stream_id,
}
use core_status.Status.Read.Granted.{FindsUpdates, IsGrantFor, grant_found}

-- The database answers each query for grants and updates, and Redis each command for a string.
pub record StoresAnswer (env : Env) : Type 0 where
  pub find_grants :
      (p : Grant → Bool) (rows : List Grant)
      → (found : List Grant) × (env.grant_table.find p rows ≡ ok found)
  pub find_updates :
      (p : Update → Bool) (rows : List Update)
      → (found : List Update) × (env.find_updates_by_upload p rows ≡ ok found)
  pub get : (key : String) (m : Strings) → env.redis_get key m ≡ ok (m key)
  pub set :
      (key value : String) (m : Strings) → (m' : Strings) × (env.redis_set key value m ≡ ok m')

map_calls_return :
    {A B : Type 0} (f : A → M B) (xs : List A)
    → ((x : A) → In x xs → (w : World) → (y : B) × (w' : World) × (f x w ≡ (ok y, w')))
    → (w : World) → (ys : List B) × (w' : World) × (map_calls f xs w ≡ (ok ys, w'))
map_calls_return f [] each w = ([], w, refl)
map_calls_return f (x ∷ xs) each w =
    let (y, w₁, first) = each x (inl refl) w in
    let (ys, w₂, rest) = map_calls_return f xs (λ z i. each z (inr i)) w₁ in
    (y ∷ ys, w₂, rw first (rw rest refl))

module _ (env : Env) (answers : StoresAnswer env) (r s : String) where
  -- the text of an update is opened by the key of a grant
  abbrev pub Opens : Update → Grant → Type 0
  Opens u g =
      (p : GrantProperties) × (text : String) × (g.properties ≡ some p)
      × (re_encrypt_payload env u.payload p.re_encryption_key ≡ ok text)

  serve_returns :
      (grants : List Grant) (u : Update) (g : Grant) (w : World)
      → find (grant_covers u.recorded_at) grants ≡ some g
      → Opens u g
      → (y : Served) × (w' : World) × (serve env r s grants u w ≡ (ok y, w'))
  unfolding serve re_encrypt_and_cache get set write_value
  serve_returns grants u g w found (p, text, has, made) =
      let key = build_status_update_key r s u.id in
      let value = read_value env (w.strings key) in
      let (m, written) = answers.set key text w.strings in
      elim (Bool-cases (truthy value)) [
        | inl cached ↦
            (record { update = u; payload = value }, w, ground (arith, answers.get key w.strings))
        | inr absent ↦ (
          record { update = u; payload = str text },
          record w { strings = m },
          ground (arith, answers.get key w.strings),
        )
      ]

  module _ (sorts : IsSortBy env.sort_by_from_date) (laws : IsTable env.grant_table)
      (finds : FindsUpdates env) (range : TimeRangeDto) (lo hi : ℕ)
      (from : env.date range.from_date ≡ some lo) (to : env.date range.to_date ≡ some hi)
      (from_same : env.database_date range.from_date ≡ some lo)
      (to_same : env.database_date range.to_date ≡ some hi) (w : World) where
    meets_of :
        (g : Grant)
        → IsGrantFor r s w g
        → g.from_date ≤ hi
        → lo ≤ g.to_date
        → meets env r s range g ≡ true
    unfolding meets
    meets_of g (row, of_r, of_s) a b = ground (
      arith,
      ===_iff g.recipient_id r,
      ===_iff g.stream_id s,
      le→leb g.from_date hi a,
      le→leb lo g.to_date b,
    )

    meets_inv :
        (g : Grant)
        → In g w.grants
        → meets env r s range g ≡ true
        → IsGrantFor r s w g × (g.from_date ≤ hi) × (lo ≤ g.to_date)
    unfolding meets
    meets_inv g row h = (
      (row, ground (arith, ===_iff g.recipient_id r), ground (arith, ===_iff g.stream_id s)),
      ground arith,
      ground arith,
    )

    -- The check passes for the grants that are found.
    found_pass :
        (grants : List Grant) (g₀ : Grant)
        → env.grant_table.find (meets env r s range) w.grants ≡ ok grants
        → lo ≤ hi
        → ((g : Grant) → IsGrantFor r s w g → g.from_date ≤ g.to_date)
        → IsGrantFor r s w g₀
        → g₀.from_date ≤ hi
        → lo ≤ g₀.to_date
        → ((t : ℕ)
            → lo ≤ t
            → t < hi
            → (g : Grant) × IsGrantFor r s w g × (g.from_date ≤ t) × (suc t ≤ g.to_date))
        → check_continuous_range env.sort_by_from_date env.date grants range ≡ ok tt
    found_pass grants g₀ found order forward given a b covered =
        let there : (g : Grant)
            → IsGrantFor r s w g
            → g.from_date ≤ hi
            → lo ≤ g.to_date
            → In g grants =
          λ g grant c d.
            laws.find_complete (meets env r s range) w.grants grants found g grant.0
              (meets_of g grant c d) in
        (check_continuous_range_iff env.sort_by_from_date sorts env.date range lo hi from to grants
            order
            (λ g i.
              let (row, test) = laws.find_sound (meets env r s range) w.grants grants found g i in
              let (grant, c, d) = meets_inv g row test in (forward g grant, c, d))).1
          (
            some_there grants g₀ (there g₀ given a b),
            λ t c d.
                let (g, grant, e, f) = covered t c d in
                (g, there g grant (omega arith) (omega arith), (e, f)),
          )
      where
        some_there : (xs : List Grant) (g : Grant) → In g xs → xs ≢ []
        some_there [] g i e = absurd i
        some_there (x ∷ xs) g i e = cc

    -- Where the reader's grants on the stream run forward, one of them meets the requested range, each unit of the range
    -- lies within one of them, and each update of the stream in the range is opened by the key of each of them that
    -- covers its time, the request succeeds, if the database and Redis answer.
    pub granted_request_succeeds :
        (g₀ : Grant)
        → lo ≤ hi
        → ((g : Grant) → IsGrantFor r s w g → g.from_date ≤ g.to_date)
        → IsGrantFor r s w g₀
        → g₀.from_date ≤ hi
        → lo ≤ g₀.to_date
        → ((t : ℕ)
            → lo ≤ t
            → t < hi
            → (g : Grant) × IsGrantFor r s w g × (g.from_date ≤ t) × (suc t ≤ g.to_date))
        → ((u : Update) (g : Grant)
            → In u w.updates
            → u.stream_id ≡ s
            → lo ≤ u.recorded_at
            → u.recorded_at ≤ hi
            → IsGrantFor r s w g
            → g.from_date ≤ u.recorded_at
            → u.recorded_at ≤ g.to_date
            → Opens u g)
        → (served : List Served) × (w' : World) × (get_user_status_by_stream_id env r s range w
            ≡ (ok served, w'))
    unfolding get_user_status_by_stream_id get_by_range
    granted_request_succeeds g₀ order forward given a b covered opens =
        let (grants, found) = answers.find_grants (meets env r s range) w.grants in
        let (updates, rows) = answers.find_updates (in_range env s range) w.updates in
        let passed = found_pass grants g₀ found order forward given a b covered in
        let got : get_by_range env r s range w ≡ (ok grants, w) = ground arith in
        let (served, w', calls) =
          map_calls_return (serve env r s grants) updates
            (λ u i v.
              let (row, test) = finds (in_range env s range) w.updates updates rows u i in
              let of_s : u.stream_id ≡ s = ground (arith, ===_iff u.stream_id s) in
              let bounds : (lo ≤ u.recorded_at) × (u.recorded_at ≤ hi) = ground arith in
              let (g, hit, grant, c, d) =
                grant_found env sorts laws r s range lo hi from to w w grants got passed
                  u.recorded_at bounds.0 bounds.1 in
              serve_returns grants u g v hit (opens u g row of_s bounds.0 bounds.1 grant c d))
            w in
        (served, w', ground arith)
