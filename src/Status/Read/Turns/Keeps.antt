-- ===== src/Status/Read/Turns/Keeps.antt =====
-- The other operations of the service leave the payloads in the cache alone.
use core_status.Base.{
  String, ◌≡◌, refl, sym, ap, ◌∙◌, false, none, some, Option, List, [], ◌∷◌, arith, ◌===◌, ===_iff,
  Bool-cases, inl, inr,
}
use core_status.Data.Errors.{Error, Result, ok, err, Result-cases, channel_group_removal_error}
use core_status.Data.Entities.{Grant, Stream, StreamType}
use core_status.Data.Json.{Json}
use core_status.Data.Requests.{GrantDto, TimeRangeDto, StatusDto}
use core_status.Effects.{World, Env, M, next, handle, query, throw, pure, commit, ◌>>◌}
use core_status.Effects.Laws.{IsRedis}
use core_status.Cache.{
  build_status_update_key, built_grants_per_stream_key, built_re_encryption_per_grant_key, set,
  sadd, write_value,
}
use core_status.Cache.Keys.{cache_keys_disjoint}
use core_status.Subscribers.{
  after_insert, grant_json, grant_notification, re_encryption_key_of, remove_from_channel_group,
  push_to_worker,
}
use core_status.Subscribers.Laws.{push_grant-SameTables, remove_from_channel_group-SameTables}
use core_status.Streams.{get_by_id, get_streams_of}
use core_status.Grants.Service.{
  get, first_deleted, check_scopes, allowed_owner, save_grant, save, delete, delete_grant,
  modify_range, save_dates,
}
use core_status.Status.Write.{
  check_streams, row_of, insert_status, insert_failed, save_all, save as save_statuses,
}
use core_status.Status.Remove.{
  remove_status_update, remove_status_updates, remove_status_updates_by_date_range,
}
use core_status.Status.Lifecycle.{Step, appends, removes, removes_several, removes_range}

-- The payloads in the cache are the same in both worlds.
unfoldable pub Keeps : World → World → Type 0
Keeps w w' =
    (r s id : String)
    → w'.strings (build_status_update_key r s id) ≡ w.strings (build_status_update_key r s id)

same-Keeps : (w w' : World) → w'.strings ≡ w.strings → Keeps w w'
unfolding Keeps
same-Keeps w w' e = λ r s id. ap (λ m. m (build_status_update_key r s id)) e

next-Keeps :
    {A B : Type 0} (w : World) (first : Result A × World) (f : A → M B)
    → Keeps w first.1
    → ((a : A) (v : World) → Keeps v (f a v).1)
    → Keeps w (next first f).1
unfolding Keeps
next-Keeps w (ok a, v) f h k = λ r s id. k a v r s id ∙ h r s id
next-Keeps w (err e, v) f h k = h

handle-Keeps :
    {A : Type 0} (w : World) (first : Result A × World) (f : Error → M A)
    → Keeps w first.1
    → ((e : Error) (v : World) → (f e v).1.strings ≡ v.strings)
    → Keeps w (handle first f).1
unfolding Keeps
handle-Keeps w (ok a, v) f h k = h
handle-Keeps w (err e, v) f h k = λ r s id. same-Keeps v (f e v).1 (k e v) r s id ∙ h r s id

module _ (env : Env) (redis : IsRedis env) where
  -- a write under the key of a grant
  set-Keeps :
      (grant_id : String) (value : Json) (w : World)
      → Keeps w (set env (built_re_encryption_per_grant_key grant_id) value w).1
  unfolding Keeps set write_value
  set-Keeps grant_id value w = λ r s id.
      let key = built_re_encryption_per_grant_key grant_id in
      let mine = build_status_update_key r s id in
      elim (Result-cases (env.redis_set key (write_value env value) w.strings)) [
        | inr (e, failed) ↦ ground arith
        | inl (m, written) ↦
            (let apart : (key === mine) ≡ false = elim (Bool-cases (key === mine)) [
              | inl e ↦
                  absurd ((cache_keys_disjoint r s id "" grant_id).1 (sym ((===_iff key mine).0 e)))
              | inr e ↦ e
            ] in
              let is : m mine ≡ w.strings mine =
                redis.set_writes key (write_value env value) w.strings m written mine
                ∙ rw apart refl in
              rw written is)
      ]

  after_insert-Keeps : (g : Grant) (w : World) → Keeps w (after_insert env g w).1
  unfolding after_insert sadd
  after_insert-Keeps g w =
      next-Keeps w
        (sadd env (built_grants_per_stream_key g.stream_id) (env.json_stringify (grant_json env g))
          w)
        _ (same-Keeps _ _ (ground arith))
        (λ u v. next-Keeps v (re_encryption_key_of g v) _ (same-Keeps _ _ (ground arith)) (λ k x.
          next-Keeps x (set env (built_re_encryption_per_grant_key g.id) k x) _ (set-Keeps g.id k x)
            (λ t y.
              same-Keeps _ _ (push_grant-SameTables env (grant_notification g) g y).1.strings)))

  abbrev insert_grant : GrantDto → M Grant
  insert_grant dto w =
      commit (env.grant_table.insert dto w.grants) (λ rows. record w { grants = rows }) w

  save_grant-Keeps : (dto : GrantDto) (w : World) → Keeps w (save_grant env dto w).1
  unfolding save_grant
  save_grant-Keeps dto w =
      handle-Keeps w (next (insert_grant dto w) (λ g. after_insert env g >> pure g)) _
        (next-Keeps w (insert_grant dto w) _ (same-Keeps _ _ (ground arith)) (λ g v.
          next-Keeps v (after_insert env g v) _ (after_insert-Keeps g v)
            (λ u x. same-Keeps _ _ refl)))
        (λ e v. refl)

  pub save-Keeps :
      (uuid : String) (dto : GrantDto) (scopes : List String) (w : World)
      → Keeps w (save env uuid dto scopes w).1
  unfolding save check_scopes get_by_id
  save-Keeps uuid dto scopes w =
      next-Keeps w (check_scopes env uuid dto scopes w) _ (same-Keeps _ _ (ground arith)) (λ u v.
        next-Keeps v (get_by_id env dto.stream_id v) _ (same-Keeps _ _ (ground arith)) (λ found x.
          next-Keeps x (allowed_owner uuid dto.type found x) _
            (same-Keeps _ _ (owner_strings uuid dto found x)) (λ owner y. save_grant-Keeps _ y)))
    where
      owner_strings :
          (uuid : String) (dto : GrantDto) (found : Option (Stream × StreamType)) (x : World)
          → (allowed_owner uuid dto.type found x).1.strings ≡ x.strings
      owner_strings uuid dto none x = refl
      owner_strings uuid dto (some (stream, kind)) x = ground arith

  pub delete-Keeps : (id owner_id : String) (w : World) → Keeps w (delete env id owner_id w).1
  unfolding delete get delete_grant
  delete-Keeps id owner_id w =
      next-Keeps w (get env id owner_id w) _ (same-Keeps _ _ (ground arith)) (λ g v.
        next-Keeps v
          (handle (remove_from_channel_group env g v) (λ e. throw channel_group_removal_error)) _
          (handle-Keeps v (remove_from_channel_group env g v) _
            (same-Keeps _ _ (remove_from_channel_group-SameTables env g v).1.strings) (λ e x. refl))
          (λ u x.
            next-Keeps x (delete_grant env id owner_id x) _ (same-Keeps _ _ (ground arith))
              (λ raw y. same-Keeps _ _ (raw_strings raw y))))
    where
      raw_strings : (raw : List Grant) (y : World) → (first_deleted raw y).1.strings ≡ y.strings
      raw_strings [] y = refl
      raw_strings (g ∷ gs) y = refl

  pub modify-Keeps :
      (id owner_id : String) (dates : TimeRangeDto) (w : World)
      → Keeps w (modify_range env id owner_id dates w).1
  unfolding modify_range get save_dates
  modify-Keeps id owner_id dates w = same-Keeps _ _ (ground arith)

  save_all-Keeps :
      (owner_id : String) (statuses : List StatusDto) (w : World)
      → Keeps w (save_all env owner_id statuses w).1
  unfolding save_all insert_status insert_failed push_to_worker
  save_all-Keeps owner_id [] w = same-Keeps _ _ refl
  save_all-Keeps owner_id (x ∷ xs) w =
      next-Keeps w (handle (insert_status env (row_of owner_id x) w) insert_failed) _
        (same-Keeps _ _ (ground arith))
        (λ r v.
          next-Keeps v (save_all env owner_id xs v) _ (save_all-Keeps owner_id xs v)
            (λ rs y. same-Keeps _ _ refl))

  pub Step-Keeps : {v w : World} → Step env v w → Keeps v w
  unfolding save_statuses get_streams_of remove_status_update remove_status_updates
      remove_status_updates_by_date_range
  Step-Keeps (appends owner_id statuses v) =
      next-Keeps v (get_streams_of env owner_id v) _ (same-Keeps _ _ (ground arith)) (λ streams x.
        next-Keeps x (query (λ y. check_streams streams statuses) x) _ (same-Keeps _ _ refl)
          (λ u y. save_all-Keeps owner_id statuses y))
  Step-Keeps (removes owner_id o v) = same-Keeps _ _ (ground arith)
  Step-Keeps (removes_several owner_id o v) = same-Keeps _ _ (ground arith)
  Step-Keeps (removes_range owner_id o v) = same-Keeps _ _ (ground arith)
