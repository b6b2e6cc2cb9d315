-- ===== src/Worker/Pipeline.antt =====
-- From a new grant to its holder's updates: what the service caches of a grant is what the worker forwards by, and
-- what the worker caches of an update is what the service answers a reader with.
use mathlib.Core.Path.{subst}
use core_status.Base.{String, ◌≡◌, ◌≢◌, refl, sym, ap, ◌∙◌, none, some, List, arith, In, ===_iff}
use core_status.Data.Errors.{Result, ok}
use core_status.Data.Json.{Json, str, truthy}
use core_status.Data.Entities.{Grant, GrantProperties}
use core_status.Data.Requests.{GrantDto}
use core_status.Data.Messages.{StatusUpdateDto}
use core_status.Effects.{World, Env, next-eq-ok}
use core_status.Effects.Laws.{IsRedis}
use core_status.Cache.{
  set, sadd, read_value, write_value, built_grants_per_stream_key,
  built_re_encryption_per_grant_key,
}
use core_status.Cache.Laws.{set_inv}
use core_status.Cache.Members.{AllParse, In-read_members}
use core_status.Grants.Service.{save}
use core_status.Grants.Service.Save.{save-after_insert}
use core_status.Subscribers.{grant_json, grant_notification, after_insert, re_encryption_key_of}
use core_status.Subscribers.Laws.{push_grant-SameTables}
use core_status.Worker.{handle_status_update_event}
use core_status.Worker.Fanout.{Answers}
use core_status.Worker.Revoked.{forwarded, cached_forwarded}

sadd_inv :
    (env : Env) (key value : String) (w w' : World)
    → sadd env key value w ≡ (ok tt, w')
    → (env.redis_sadd key value w.sets ≡ ok w'.sets)
unfolding sadd
sadd_inv env key value w w' h = ground arith

set_sets :
    (env : Env) (key : String) (value : Json) (w w' : World)
    → set env key value w ≡ (ok tt, w')
    → w'.sets ≡ w.sets
unfolding set
set_sets env key value w w' h = ground arith

-- A grant that is cached: it is a member of the set of its stream, and its key is under its own key.
pub record IsCached (env : Env) (g : Grant) (key : String) (w : World) : Type 0 where
  pub member :
      In (env.json_stringify (grant_json env g)) (w.sets (built_grants_per_stream_key g.stream_id))
  pub stored : w.strings (built_re_encryption_per_grant_key g.id) ≡ some key

key_inv :
    (g : Grant) (p : GrantProperties) (w w' : World) (key : Json)
    → g.properties ≡ some p
    → re_encryption_key_of g w ≡ (ok key, w')
    → (key ≡ str p.re_encryption_key) × (w' ≡ w)
key_inv g p w w' key has h = (ground arith, ground arith)

set-stored :
    (env : Env) (laws : IsRedis env) (key text : String) (w w' : World)
    → set env key (str text) w ≡ (ok tt, w')
    → w'.strings key ≡ some text
unfolding write_value
set-stored env laws key text w w' h =
    laws.set_writes key text w.strings w'.strings (set_inv env key (str text) w w' h) key
    ∙ rw ((===_iff key key).1 refl) refl

after_insert-IsCached :
    (env : Env) (laws : IsRedis env) (g : Grant) (p : GrantProperties) (w w' : World)
    → g.properties ≡ some p
    → after_insert env g w ≡ (ok tt, w')
    → IsCached env g p.re_encryption_key w'
unfolding after_insert
after_insert-IsCached env laws g p w w' has h =
    let of_stream = built_grants_per_stream_key g.stream_id in
    let of_grant = built_re_encryption_per_grant_key g.id in
    let text = env.json_stringify (grant_json env g) in
    let (_, w₁, added, h₁) = next-eq-ok (sadd env of_stream text w) _ h in
    let (key, w₂, read, h₂) = next-eq-ok (re_encryption_key_of g w₁) _ h₁ in
    let (is_key, back) = key_inv g p w₁ w₂ key has read in
    let (_, w₃, written, h₃) = next-eq-ok (set env of_grant key w₂) _ h₂ in
    let cache = (push_grant-SameTables env (grant_notification g) g w₃).1 in
    let sets : w'.sets ≡ w₁.sets =
      ap (λ (r : Result (Unit {0}) × World). r.1.sets) (sym h₃)
      ∙ cache.sets
      ∙ set_sets env of_grant key w₂ w₃ written
      ∙ ap (λ (v : World). v.sets) back in
    let strings : w'.strings ≡ w₃.strings =
      ap (λ (r : Result (Unit {0}) × World). r.1.strings) (sym h₃) ∙ cache.strings in
    record {
      member =
          rw sets
            (laws.sadd_adds of_stream text w.sets w₁.sets (sadd_inv env of_stream text w w₁ added));
      stored =
          rw strings
            (set-stored env laws of_grant p.re_encryption_key w₂ w₃ (rw is_key at written));
    }

read_key :
    (env : Env) (w : World) (g : Grant) (key : String)
    → w.strings (built_re_encryption_per_grant_key g.id) ≡ some key
    → env.json_parse key ≡ none
    → read_value env (w.strings (built_re_encryption_per_grant_key g.id)) ≡ str key
unfolding read_value
read_key env w g key stored text = ground arith

-- Once a grant with a key is saved, the worker sends each new status of its stream to its holder, where Redis and the
-- broker answer, each grant that is cached for the stream is JSON, the grant's among them, and the key is a text that
-- is not empty and no JSON.
pub saved_grant_forwarded :
    (env : Env) (laws : IsRedis env) (uuid : String) (dto : GrantDto) (scopes : List String)
    (w w' : World) (g : Grant) (p : GrantProperties) (update : StatusUpdateDto)
    → save env uuid dto scopes w ≡ (ok g, w')
    → g.properties ≡ some p
    → update.stream_id ≡ g.stream_id
    → p.re_encryption_key ≢ ""
    → env.json_parse p.re_encryption_key ≡ none
    → env.json_parse (env.json_stringify (grant_json env g)) ≡ some (grant_json env g)
    → AllParse env (w'.sets (built_grants_per_stream_key update.stream_id))
    → Answers env update w'
    → env.redis_smembers (built_grants_per_stream_key update.stream_id) w'.sets
      ≡ ok (w'.sets (built_grants_per_stream_key update.stream_id))
    → In
        (forwarded env update g (str p.re_encryption_key))
        (handle_status_update_event env update w').1.history
saved_grant_forwarded env laws uuid dto scopes w w' g p update saved has of_stream filled text json
      all answers read =
    let (v, through) = save-after_insert env uuid dto scopes w w' g saved in
    let cached = after_insert-IsCached env laws g p v w' has through in
    let member =
      subst
        (λ s. In (env.json_stringify (grant_json env g)) (w'.sets (built_grants_per_stream_key s)))
        (sym of_stream) cached.member in
    let there = In-read_members env _ _ (grant_json env g) all member json in
    let value = read_key env w' g p.re_encryption_key cached.stored text in
    subst (λ j. In (forwarded env update g j) (handle_status_update_event env update w').1.history)
      value
      (cached_forwarded env update w' g answers read there
        (ap truthy value ∙ ground (arith, ===_iff p.re_encryption_key "")))
