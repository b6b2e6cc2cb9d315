-- ===== src/Status/Read/Stale.antt =====
-- A payload in the cache is served as it is, and a removal leaves the cache alone.
use mathlib.Core.Path.{subst}
use core_status.Base.{String, ◌≡◌, ◌≢◌, true, Option, none, List, arith, find, ===_iff}
use core_status.Data.Errors.{ok}
use core_status.Data.Json.{str, truthy}
use core_status.Data.Entities.{Grant, Update}
use core_status.Data.Requests.{SingleUpdateDeleteOptions, DeletedUpdate}
use core_status.Effects.{World, Env, next-eq-ok, query}
use core_status.Effects.Laws.{IsRedis}
use core_status.Cache.{get, set, read_value, write_value, build_status_update_key}
use core_status.Cache.Laws.{get-set}
use core_status.Pre.{re_encrypt_payload}
use core_status.Status.Read.{serve, re_encrypt_and_cache, key_of, grant_covers}
use core_status.Status.Remove.{remove_status_update}

-- A cached value is served as it is, whatever the row holds by now.
pub serve_cached :
    (env : Env) (r s : String) (grants : List Grant) (u : Update) (w : World) (v : Option String)
    → env.redis_get (build_status_update_key r s u.id) w.strings ≡ ok v
    → truthy (read_value env v) ≡ true
    → serve env r s grants u w ≡ (ok (record { update = u; payload = read_value env v }), w)
unfolding serve get
serve_cached env r s grants u w v e h = ground arith

pub remove_strings :
    (env : Env) (owner_id : String) (o : SingleUpdateDeleteOptions) (w w' : World)
    (d : DeletedUpdate)
    → remove_status_update env owner_id o w ≡ (ok d, w')
    → w'.strings ≡ w.strings
unfolding remove_status_update
remove_strings env owner_id o w w' d h = ground arith

cached_payload :
    (env : Env) (grants : List Grant) (key : String) (u : Update) (w w' : World) (payload : String)
    → re_encrypt_and_cache env grants key u w
      ≡ (ok (record { update = u; payload = str payload }), w')
    → (v : World) × (set env key (str payload) v ≡ (ok tt, w'))
unfolding re_encrypt_and_cache
cached_payload env grants key u w w' payload h =
    let (k, w₁, a, h₁) =
      next-eq-ok (query (λ x. key_of (find (grant_covers u.recorded_at) grants)) w) _ h in
    let (p, w₂, b, h₂) = next-eq-ok (query (λ x. re_encrypt_payload env u.payload k) w₁) _ h₁ in
    let (_, w₃, c, h₃) = next-eq-ok (set env key (str p) w₂) _ h₂ in
    let same : p ≡ payload = ground arith in
    let there : w₃ ≡ w' = ground arith in (w₂, rw (← same, ← there) c)

-- An update that was re-encrypted is in the cache afterwards: serving it once more, whatever the grants,
-- gives the same payload and changes nothing, if that text is not empty and no JSON.
serve_again :
    (env : Env) (laws : IsRedis env) (r s : String) (grants grants' : List Grant) (u : Update)
    (w w' : World) (payload : String) (v : Option String)
    → re_encrypt_and_cache env grants (build_status_update_key r s u.id) u w
      ≡ (ok (record { update = u; payload = str payload }), w')
    → env.json_parse payload ≡ none
    → payload ≢ ""
    → env.redis_get (build_status_update_key r s u.id) w'.strings ≡ ok v
    → serve env r s grants' u w' ≡ (ok (record { update = u; payload = str payload }), w')
unfolding read_value write_value get
serve_again env laws r s grants grants' u w w' payload v h text filled e =
    let key = build_status_update_key r s u.id in
    let (x, sent) = cached_payload env grants key u w w' payload h in
    let same = get-set env laws key (str payload) x w' w' (read_value env v) sent (ground arith) in
    let value : read_value env v ≡ str payload = ground arith in
    subst (λ j. serve env r s grants' u w' ≡ (ok (record { update = u; payload = j }), w')) value
      (serve_cached env r s grants' u w' v e (ground (arith, ===_iff payload "")))
