-- ===== src/Status/Read/Cached.antt =====
-- A payload in the cache is what a reader's request is answered with.
use mathlib.Core.Path.{subst}
use mathlib.Core.Bool.{false≢true}
use core_status.Base.{
  ℕ, String, ◌≡◌, ◌≤◌, le→leb, change, In-change, ap, sym, ◌∙◌, Bool-cases, true, false, some, List,
  [], ◌∷◌, arith, ===_iff, ◌===◌, In, inl, inr,
}
use core_status.Data.Errors.{ok, Result-cases}
use core_status.Data.Json.{truthy}
use core_status.Data.Entities.{Grant, Update}
use core_status.Data.Requests.{TimeRangeDto, SingleUpdateDeleteOptions, DeletedUpdate}
use core_status.Effects.{World, Env, next-eq-ok, pure-eq-ok, map_calls, query}
use core_status.Effects.Laws.{IsRedis, IsTable}
use core_status.Cache.{get, read_value, build_status_update_key}
use core_status.Grants.Range.{check_continuous_range}
use core_status.Grants.Service.{get_by_range}
use core_status.Status.Read.{Served, in_range, serve, get_user_status_by_stream_id}
use core_status.Status.Read.Complete.{FindsAll}
use core_status.Status.Read.Granted.{get_by_range_inv}
use core_status.Status.Read.Blocked.{serve_keeps}
use core_status.Status.Read.Stale.{remove_strings}
use core_status.Status.Remove.{remove_status_update, single_target, wipe}
use core_status.Status.Remove.Wiped.{emptied, remove_status_update_wipes}

-- an update as it is served from the cache
abbrev pub from_cache : Env → Update → String → Served
from_cache env u text = record { update = u; payload = read_value env (some text) }

module _ (env : Env) (redis : IsRedis env) (r s text : String)
    (filled : truthy (read_value env (some text)) ≡ true) where
  module _ (grants : List Grant) where
    serve-from_cache :
        (u : Update) (v v' : World) (y : Served)
        → v.strings (build_status_update_key r s u.id) ≡ some text
        → serve env r s grants u v ≡ (ok y, v')
        → (y ≡ from_cache env u text) × (v' ≡ v)
    unfolding serve get
    serve-from_cache u v v' y there h =
        elim (Result-cases (env.redis_get (build_status_update_key r s u.id) v.strings)) [
          | inr (x, failed) ↦ absurd (ground arith)
          | inl (value, read) ↦
              (let is =
                  redis.get_reads (build_status_update_key r s u.id) v.strings value read ∙ there in
                (ground (arith, is), ground (arith, is)))
        ]

    kept :
        (x u : Update) (v v₁ : World) (b : Served)
        → v.strings (build_status_update_key r s u.id) ≡ some text
        → serve env r s grants x v ≡ (ok b, v₁)
        → v₁.strings (build_status_update_key r s u.id) ≡ some text
    kept x u v v₁ b there first = elim (Bool-cases (x.id === u.id)) [
      | inl e ↦ rw (serve-from_cache x v v₁ b (rw ((===_iff x.id u.id).0 e) there) first).1 there
      | inr e ↦
          serve_keeps env redis r s grants x u v v₁ b
            (λ q. false≢true (sym e ∙ (===_iff x.id u.id).1 q)) first
          ∙ there
    ]

    calls-from_cache :
        (u : Update) (xs : List Update) (v v' : World) (ys : List Served)
        → v.strings (build_status_update_key r s u.id) ≡ some text
        → In u xs
        → map_calls (serve env r s grants) xs v ≡ (ok ys, v')
        → In (from_cache env u text) ys
    calls-from_cache u [] v v' ys there i h = absurd i
    calls-from_cache u (x ∷ xs) v v' ys there i h =
        let (b, v₁, first, h₁) = next-eq-ok (serve env r s grants x v) _ h in
        let (bs, v₂, rest, h₂) = next-eq-ok (map_calls (serve env r s grants) xs v₁) _ h₁ in
        rw (← (pure-eq-ok {a = b ∷ bs} {b = ys} {w = v₂} {w' = v'} h₂).0) (elim i [
          | inl here ↦ inl (
              sym (
                (serve-from_cache x v v₁ b (rw (← here) there) first).0
                ∙ ap (λ z. from_cache env z text) (sym here)))
          | inr later ↦
              inr (calls-from_cache u xs v₁ v₂ bs (kept x u v v₁ b there first) later rest)
        ])

  -- A request that succeeds is answered, for each update of its stream in its range whose payload for the reader was
  -- in the cache, with this payload.
  pub cached_is_answered :
      (grant_laws : IsTable env.grant_table) (finds_all : FindsAll env) (range : TimeRangeDto)
      (w w' : World) (served : List Served) (u : Update)
      → In u w.updates
      → in_range env s range u ≡ true
      → w.strings (build_status_update_key r s u.id) ≡ some text
      → get_user_status_by_stream_id env r s range w ≡ (ok served, w')
      → In (from_cache env u text) served
  unfolding get_user_status_by_stream_id
  cached_is_answered grant_laws finds_all range w w' served u row inside there h =
      let (grants, w₁, got, h₁) = next-eq-ok (get_by_range env r s range w) _ h in
      let same = (get_by_range_inv env grant_laws r s range w w₁ grants got).0 in
      let (t, w₂, passed, h₂) =
        next-eq-ok
          (query (λ z. check_continuous_range env.sort_by_from_date env.date grants range) w₁) _
          h₁ in
      let (updates, w₃, found, h₃) =
        next-eq-ok (query (λ z. env.find_updates_by_upload (in_range env s range) z.updates) w₂) _
          h₂ in
      let back : w₂ ≡ w = ground arith in
      let still : w₃ ≡ w = ground arith in
      let rows : env.find_updates_by_upload (in_range env s range) w.updates ≡ ok updates =
        subst
          (λ (z : World). env.find_updates_by_upload (in_range env s range) z.updates ≡ ok updates)
          back (ground arith) in
      calls-from_cache grants u updates w₃ w' served (rw still there)
        (finds_all (in_range env s range) w.updates updates rows u row inside) h₃

-- After an update was removed, each request of a reader for a range of its stream around its time that succeeds is still
-- answered with the payload of the update that was in the cache for the reader, on the row that the removal has emptied.
pub removed_update_still_served :
    (env : Env) (redis : IsRedis env) (stream_laws : IsTable env.stream_table)
    (laws : IsTable env.update_table) (grant_laws : IsTable env.grant_table)
    (finds_all : FindsAll env) (owner_id r text : String) (o : SingleUpdateDeleteOptions)
    (range : TimeRangeDto) (lo hi : ℕ) (w w' w'' : World) (d : DeletedUpdate) (u : Update)
    (served : List Served)
    → remove_status_update env owner_id o w ≡ (ok d, w')
    → In u w.updates
    → u.id ≡ o.id
    → u.stream_id ≡ o.stream_id
    → u.marker.deleted ≡ some false
    → env.database_date range.from_date ≡ some lo
    → env.database_date range.to_date ≡ some hi
    → lo ≤ u.recorded_at
    → u.recorded_at ≤ hi
    → w.strings (build_status_update_key r o.stream_id u.id) ≡ some text
    → truthy (read_value env (some text)) ≡ true
    → get_user_status_by_stream_id env r o.stream_id range w' ≡ (ok served, w'')
    → In (record { update = emptied u; payload = read_value env (some text) }) served
removed_update_still_served env redis stream_laws laws grant_laws finds_all owner_id r text o range
      lo hi w w' w'' d u served removed row of_id of_stream live from to a b there filled answered =
    cached_is_answered env redis r o.stream_id text filled grant_laws finds_all range w' w'' served
      (emptied u)
      (subst (λ l. In (emptied u) l) (sym rows)
        (In-change (single_target o) wipe u w.updates row target))
      (ground (
        arith,
        ===_iff u.stream_id o.stream_id,
        le→leb lo u.recorded_at a,
        le→leb u.recorded_at hi b,
      ))
      (rw (remove_strings env owner_id o w w' d removed) there) answered
  where
    rows : w'.updates ≡ change (single_target o) wipe w.updates
    rows = (remove_status_update_wipes env stream_laws laws owner_id o w w' d removed).1

    target : single_target o u ≡ true
    target = ground (arith, ===_iff u.id o.id, ===_iff u.stream_id o.stream_id)
