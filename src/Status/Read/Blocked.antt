-- ===== src/Status/Read/Blocked.antt =====
-- A removed update in the range of a request.
use mathlib.Core.Path.{subst}
use mathlib.Core.Bool.{false≢true}
use text.Mathlib.TextLemmas.{append_cancel_left}
use core_status.Base.{
  String, ◌≡◌, ◌≢◌, refl, ap, sym, ◌∙◌, Bool-cases, true, false, none, List, [], ◌∷◌, arith,
  ===_iff, ◌===◌, In, ◌⊎◌, inl, inr, find, change, change-In, In-change, if◌then◌else◌,
}
use core_status.Data.Errors.{Error, ok, err, Result-cases}
use core_status.Data.Json.{str, truthy}
use core_status.Data.Entities.{Grant, Update}
use core_status.Data.Requests.{TimeRangeDto, SingleUpdateDeleteOptions, DeletedUpdate}
use core_status.Effects.{World, Env, next-eq-ok, map_calls, query}
use core_status.Effects.Laws.{IsRedis, IsTable}
use core_status.Cache.{get, set, read_value, write_value, build_status_update_key}
use core_status.Cache.Laws.{set_inv}
use core_status.Pre.{re_encrypt_payload, parse}
use core_status.Grants.Range.{check_continuous_range}
use core_status.Grants.Service.{get_by_range}
use core_status.Status.Read.{
  Served, grant_covers, key_of, in_range, re_encrypt_and_cache, serve, get_user_status_by_stream_id,
}
use core_status.Status.Read.Complete.{FindsAll}
use core_status.Status.Read.Granted.{FindsUpdates, get_by_range_inv}
use core_status.Status.Read.Stale.{remove_strings}
use core_status.Status.Remove.{remove_status_update, single_target, wipe}
use core_status.Status.Remove.Wiped.{remove_status_update_wipes}

key_of_ids :
    (r s a b : String) → build_status_update_key r s a ≡ build_status_update_key r s b → a ≡ b
unfolding build_status_update_key
key_of_ids r s a b e = append_cancel_left ":" a b (
    append_cancel_left s _ _ (
      append_cancel_left ":" _ _
        (append_cancel_left r _ _ (append_cancel_left "status-update:" _ _ e))))

module _ (env : Env) (redis : IsRedis env) (r s : String) (grants : List Grant) where
  re_encrypt_writes :
      (key : String) (u : Update) (w w' : World) (y : Served)
      → re_encrypt_and_cache env grants key u w ≡ (ok y, w')
      → (text : String) × (env.redis_set key text w.strings ≡ ok w'.strings)
  unfolding re_encrypt_and_cache write_value
  re_encrypt_writes key u w w' y h =
      let (k, w₁, a, h₁) =
        next-eq-ok (query (λ x. key_of (find (grant_covers u.recorded_at) grants)) w) _ h in
      let (p, w₂, b, h₂) = next-eq-ok (query (λ x. re_encrypt_payload env u.payload k) w₁) _ h₁ in
      let (_, w₃, c, h₃) = next-eq-ok (set env key (str p) w₂) _ h₂ in
      let back : w₂ ≡ w = ground arith in
      let there : w₃ ≡ w' = ground arith in
      (
        p,
        subst (λ (v : World). env.redis_set key p v.strings ≡ ok w'.strings) back
            (subst (λ (v : World). env.redis_set key p w₂.strings ≡ ok v.strings) there
              (set_inv env key (str p) w₂ w₃ c)),
      )

  -- What an update that is served writes to the cache, if anything, is under its own key.
  serve_writes :
      (x : Update) (v v' : World) (y : Served)
      → serve env r s grants x v ≡ (ok y, v')
      → (v'.strings ≡ v.strings)
        ⊎ ((text : String) × (env.redis_set (build_status_update_key r s x.id) text v.strings
              ≡ ok v'.strings))
  unfolding serve get
  serve_writes x v v' y h =
      let (cached, v₁, got, h₁) = next-eq-ok (get env (build_status_update_key r s x.id) v) _ h in
      let back : v₁ ≡ v = ground arith in
      elim (Bool-cases (truthy cached)) [
        | inl there ↦ inl (ground arith)
        | inr absent ↦ inr (
            subst
              (λ (z : World).
                (text : String) × (env.redis_set (build_status_update_key r s x.id) text z.strings
                  ≡ ok v'.strings))
              back
              (re_encrypt_writes (build_status_update_key r s x.id) x v₁ v' y (rw absent at h₁)))
      ]

  pub serve_keeps :
      (x u : Update) (v v' : World) (y : Served)
      → x.id ≢ u.id
      → serve env r s grants x v ≡ (ok y, v')
      → v'.strings (build_status_update_key r s u.id) ≡ v.strings (build_status_update_key r s u.id)
  serve_keeps x u v v' y other h = elim (serve_writes x v v' y h) [
    | inl same ↦ ap (λ m. m (build_status_update_key r s u.id)) same
    | inr (text, written) ↦
        (let mine = build_status_update_key r s x.id in
          let yours = build_status_update_key r s u.id in
          let apart : (mine === yours) ≡ false = elim (Bool-cases (mine === yours)) [
            | inl e ↦ absurd (other (key_of_ids r s x.id u.id ((===_iff mine yours).0 e)))
            | inr e ↦ e
          ] in
          redis.set_writes mine text v.strings v'.strings written yours ∙ rw apart refl)
  ]

  -- An update without payload that is not cached is not served.
  wiped_fails :
      (u : Update) (v v' : World) (y : Served) (e : Error)
      → u.payload ≡ none
      → parse env none ≡ err e
      → truthy (read_value env (v.strings (build_status_update_key r s u.id))) ≡ false
      → serve env r s grants u v ≡ (ok y, v')
      → ⊥
  unfolding serve re_encrypt_and_cache get re_encrypt_payload
  wiped_fails u v v' y e wiped refuses absent h =
      let key = build_status_update_key r s u.id in
      elim (Result-cases (env.redis_get key v.strings)) [
        | inr (x, failed) ↦ ground arith
        | inl (value, read) ↦
            (let is : value ≡ v.strings key = redis.get_reads key v.strings value read in
              let none_there : truthy (read_value env value) ≡ false = rw is absent in
              elim (Result-cases (key_of (find (grant_covers u.recorded_at) grants))) [
                | inr (x, failed) ↦ ground arith
                | inl (k, found) ↦ ground arith
              ])
      ]

  blocked_calls :
      (u : Update) (e : Error) (xs : List Update) (v v' : World) (ys : List Served)
      → u.payload ≡ none
      → parse env none ≡ err e
      → In u xs
      → ((x : Update) → In x xs → x.id ≡ u.id → x ≡ u)
      → truthy (read_value env (v.strings (build_status_update_key r s u.id))) ≡ false
      → map_calls (serve env r s grants) xs v ≡ (ok ys, v')
      → ⊥
  blocked_calls u e [] v v' ys wiped refuses i one absent h = absurd i
  blocked_calls u e (x ∷ xs) v v' ys wiped refuses i one absent h =
      let (b, v₁, first, h₁) = next-eq-ok (serve env r s grants x v) _ h in
      let (bs, v₂, rest, h₂) = next-eq-ok (map_calls (serve env r s grants) xs v₁) _ h₁ in
      elim (Bool-cases (x.id === u.id)) [
        | inl same ↦
            (let is : x ≡ u = one x (inl refl) ((===_iff x.id u.id).0 same) in
              wiped_fails u v v₁ b e wiped refuses absent
                (subst (λ z. serve env r s grants z v ≡ (ok b, v₁)) is first))
        | inr other ↦
            (let apart : x.id ≢ u.id = λ q. false≢true (sym other ∙ (===_iff x.id u.id).1 q) in
              let kept = serve_keeps x u v v₁ b apart first in
              elim i [
                | inl here ↦ absurd (apart (ap (λ (z : Update). z.id) (sym here)))
                | inr later ↦
                    blocked_calls u e xs v₁ v₂ bs wiped refuses later (λ z j. one z (inr j))
                      (rw kept absent) rest
              ])
      ]

-- A request for a range that holds an update without payload fails, if that is not cached for the reader.
wiped_blocks :
    (env : Env) (redis : IsRedis env) (grant_laws : IsTable env.grant_table)
    (finds_all : FindsAll env) (r s : String) (range : TimeRangeDto) (v v' : World)
    (served : List Served) (u : Update) (e : Error)
    → In u v.updates
    → u.payload ≡ none
    → in_range env s range u ≡ true
    → ((x : Update) → In x v.updates → x.id ≡ u.id → x ≡ u)
    → FindsUpdates env
    → truthy (read_value env (v.strings (build_status_update_key r s u.id))) ≡ false
    → parse env none ≡ err e
    → get_user_status_by_stream_id env r s range v ≡ (ok served, v')
    → ⊥
unfolding get_user_status_by_stream_id
wiped_blocks env redis grant_laws finds_all r s range v v' served u e row wiped inside one finds
      absent refuses h =
    let (grants, w₁, got, h₁) = next-eq-ok (get_by_range env r s range v) _ h in
    let same = (get_by_range_inv env grant_laws r s range v w₁ grants got).0 in
    let (t, w₂, passed, h₂) =
      next-eq-ok
        (query (λ z. check_continuous_range env.sort_by_from_date env.date grants range) w₁) _ h₁ in
    let (updates, w₃, found, h₃) =
      next-eq-ok (query (λ z. env.find_updates_by_upload (in_range env s range) z.updates) w₂) _
        h₂ in
    let back : w₂ ≡ v = ground arith in
    let still : w₃ ≡ v = ground arith in
    let rows : env.find_updates_by_upload (in_range env s range) v.updates ≡ ok updates =
      subst
        (λ (z : World). env.find_updates_by_upload (in_range env s range) z.updates ≡ ok updates)
        back (ground arith) in
    blocked_calls env redis r s grants u e updates w₃ v' served wiped refuses
      (finds_all (in_range env s range) v.updates updates rows u row inside)
      (λ x i. one x (finds (in_range env s range) v.updates updates rows x i).0) (rw still absent)
      h₃

wipe-id :
    (o : SingleUpdateDeleteOptions) (y : Update)
    → (if single_target o y then wipe y else y).id ≡ y.id
wipe-id o y = elim (Bool-cases (single_target o y)) [ inl e ↦ rw e refl | inr e ↦ rw e refl ]

-- After an update of a stream was removed, every request of a reader for a range that holds it fails, whatever grants
-- the reader has, if the reader has no payload of it in the cache, no other row has its id, and a null payload cannot
-- be parsed.
pub removed_update_blocks :
    (env : Env) (redis : IsRedis env) (stream_laws : IsTable env.stream_table)
    (laws : IsTable env.update_table) (grant_laws : IsTable env.grant_table)
    (finds : FindsUpdates env) (finds_all : FindsAll env) (owner_id r : String)
    (o : SingleUpdateDeleteOptions) (range : TimeRangeDto) (w w' : World) (d : DeletedUpdate)
    (u : Update) (e : Error)
    → remove_status_update env owner_id o w ≡ (ok d, w')
    → In u w.updates
    → single_target o u ≡ true
    → in_range env o.stream_id range u ≡ true
    → ((x : Update) → In x w.updates → x.id ≡ u.id → x ≡ u)
    → truthy (read_value env (w.strings (build_status_update_key r o.stream_id u.id))) ≡ false
    → parse env none ≡ err e
    → (x : Error) × ((get_user_status_by_stream_id env r o.stream_id range w').0 ≡ err x)
removed_update_blocks env redis stream_laws laws grant_laws finds finds_all owner_id r o range w w'
      d u e removed row target inside one absent refuses =
    elim (Result-cases (get_user_status_by_stream_id env r o.stream_id range w').0) [
      | inr failed ↦ failed
      | inl (served, answered) ↦ absurd (blocks served answered)
    ]
  where
    rows : w'.updates ≡ change (single_target o) wipe w.updates
    rows = (remove_status_update_wipes env stream_laws laws owner_id o w w' d removed).1

    only : (x : Update) → In x w'.updates → x.id ≡ u.id → x ≡ wipe u
    only x i same =
        let (y, j, is) =
          change-In (single_target o) wipe x w.updates (subst (λ l. In x l) rows i) in
        let ids : y.id ≡ u.id = sym (wipe-id o y) ∙ ap (λ (z : Update). z.id) (sym is) ∙ same in
        let y_is : y ≡ u = one y j ids in is ∙ rw y_is (rw target refl)

    blocks :
        (served : List Served)
        → (get_user_status_by_stream_id env r o.stream_id range w').0 ≡ ok served
        → ⊥
    blocks served answered =
        wiped_blocks env redis grant_laws finds_all r o.stream_id range w'
          (get_user_status_by_stream_id env r o.stream_id range w').1 served (wipe u) e
          (subst (λ l. In (wipe u) l) (sym rows)
            (In-change (single_target o) wipe u w.updates row target))
          refl inside only finds (rw (remove_strings env owner_id o w w' d removed) absent) refuses
          (λ i. (answered i, (get_user_status_by_stream_id env r o.stream_id range w').1))
