-- ===== src/Status/Read/Turns/Genuine.antt =====
-- What the cache holds of payloads, however the requests of readers interleave.
use mathlib.Core.Path.{subst}
use core_status.Base.{
  String, ◌≡◌, refl, sym, ap, ◌∙◌, ◌⊎◌, inl, inr, true, Option, none, some, List, In, In-find, find,
  ◌===◌, ===_iff, Option-cases, Bool-cases, arith,
}
use core_status.Data.Errors.{Result, ok, Result-cases}
use core_status.Data.Json.{Json, null, truthy}
use core_status.Data.Entities.{Grant, GrantProperties, Update}
use core_status.Data.Requests.{TimeRangeDto}
use core_status.Effects.{World, Env}
use core_status.Effects.Laws.{IsTable, IsRedis}
use core_status.Cache.{build_status_update_key, get, set, read_value, write_value}
use core_status.Cache.Keys.{NoColon, build_status_update_key_injective}
use core_status.Cache.Laws.{get_inv}
use core_status.Pre.{re_encrypt_payload}
use core_status.Status.Read.{Served, re_encrypt_and_cache, grant_covers, in_range}
use core_status.Status.Read.Granted.{IsGrantFor, FindsUpdates, get_by_range_inv}
use core_status.Status.Read.Turns.{
  Reached, here, looks, stores, saves_grant, deletes_grant, modifies_grant, changes_updates,
}
use core_status.Status.Read.Turns.Keeps.{Keeps, save-Keeps, delete-Keeps, modify-Keeps, Step-Keeps}

-- the grant and its key by which a text was made of an update
abbrev MadeBy : Env → Grant → Update → String → Type 0
MadeBy env g u text =
    (grant_covers u.recorded_at g ≡ true)
    × (p : GrantProperties) × (g.properties ≡ some p)
    × (re_encrypt_payload env u.payload p.re_encryption_key ≡ ok text)

re_encrypt_and_cache_inv :
    (env : Env) (grants : List Grant) (key : String) (u : Update) (w w' : World)
    (served : Result Served)
    → re_encrypt_and_cache env grants key u w ≡ (served, w')
    → (w'.strings ≡ w.strings)
      ⊎ ((g : Grant) × (text : String) × (p : GrantProperties) × (find
              (grant_covers u.recorded_at)
              grants
            ≡ some g)
          × (g.properties ≡ some p)
          × (re_encrypt_payload env u.payload p.re_encryption_key ≡ ok text)
          × (env.redis_set key text w.strings ≡ ok w'.strings))
unfolding re_encrypt_and_cache set write_value
re_encrypt_and_cache_inv env grants key u w w' served h =
    elim (Option-cases (find (grant_covers u.recorded_at) grants)) [
      | inl no_grant ↦ inl (ground arith)
      | inr (g, hit) ↦ elim (Option-cases g.properties) [
        | inl bare ↦ inl (ground arith)
        | inr (p, has) ↦
            elim (Result-cases (re_encrypt_payload env u.payload p.re_encryption_key)) [
              | inr (e, fails) ↦ inl (ground arith)
              | inl (text, made) ↦ elim (Result-cases (env.redis_set key text w.strings)) [
                | inr (e, fails) ↦ inl (ground arith)
                | inl (m, set_is) ↦ inr (g, text, p, hit, has, made, ground arith)
              ]
            ]
      ]
    ]

carry :
    (P : String → String → String → String → Type 0) {a b c d a' b' c' d' : String}
    → a ≡ a'
    → b ≡ b'
    → c ≡ c'
    → d ≡ d'
    → P a b c d
    → P a' b' c' d'
carry P p q r t h = rw (← p, ← q, ← r, ← t) h

same_text : {a b : String} → some a ≡ some b → a ≡ b
same_text h = ground arith

no_text : {a : String} → none ≡ some a → ⊥
no_text h = cc

not_filled : truthy null ≡ true → ⊥
not_filled h = cc

in_range_stream :
    (env : Env) (s : String) (range : TimeRangeDto) (u : Update)
    → in_range env s range u ≡ true
    → u.stream_id ≡ s
in_range_stream env s range u h = ground (arith, ===_iff u.stream_id s)

looks_unchanged :
    (env : Env) (key : String) (w w' : World) (cached : Result Json)
    → get env key w ≡ (cached, w')
    → w' ≡ w
unfolding get
looks_unchanged env key w w' cached h = ground arith

module _ (env : Env) (IsId : String → Type 0) (start : World) where
  -- A text that was made of an update of the stream with the id, as its row once was, under the key of a grant to the
  -- recipient, as it once was in the table, that covers the update's time.
  abbrev pub ReEncryptedFor : String → String → String → String → Type 0
  ReEncryptedFor r s id text =
      (v₁ : World) × (v₂ : World) × (g : Grant) × (u : Update) × Reached env IsId start v₁
      × Reached env IsId start v₂
      × IsGrantFor r s v₁ g
      × In u v₂.updates
      × (u.stream_id ≡ s)
      × (u.id ≡ id)
      × MadeBy env g u text

  module _ (redis : IsRedis env) (grant_laws : IsTable env.grant_table) (finds : FindsUpdates env)
      (no_colon : (id : String) → IsId id → NoColon id)
      (empty : (r s id : String) → start.strings (build_status_update_key r s id) ≡ none) where
    abbrev AllMade : World → Type 0
    AllMade w =
        (r s id text : String)
        → IsId r
        → IsId s
        → w.strings (build_status_update_key r s id) ≡ some text
        → ReEncryptedFor r s id text

    -- one write of the cache
    stored_AllMade :
        (w w' : World) (r s made_id made : String)
        → IsId r
        → IsId s
        → env.redis_set (build_status_update_key r s made_id) made w.strings ≡ ok w'.strings
        → ReEncryptedFor r s made_id made
        → AllMade w
        → AllMade w'
    stored_AllMade w w' r s made_id made is_r is_s set_is of_made all r' s' id text is_r' is_s'
          has =
        let key = build_status_update_key r s made_id in
        let key' = build_status_update_key r' s' id in
        let written = redis.set_writes key made w.strings w'.strings set_is key' in
        elim (Bool-cases (key === key')) [
          | inl e ↦
              let (same_r, same_s, same_id) =
                build_status_update_key_injective r s made_id r' s' id (no_colon r is_r)
                  (no_colon r' is_r') (no_colon s is_s) (no_colon s' is_s')
                  ((===_iff key key').0 e) in
              carry ReEncryptedFor same_r same_s same_id (same_text (sym (rw e at written) ∙ has))
                of_made
          | inr e ↦ all r' s' id text is_r' is_s' (sym (rw e at written) ∙ has)
        ]

    Keeps-AllMade : (v w : World) → Keeps v w → AllMade v → AllMade w
    unfolding Keeps
    Keeps-AllMade v w same all =
        λ r s id text is_r is_s has. all r s id text is_r is_s (sym (same r s id) ∙ has)

    Reached-AllMade : {w : World} → Reached env IsId start w → AllMade w
    Reached-AllMade here = λ r s id text is_r is_s has. absurd (no_text (sym (empty r s id) ∙ has))
    Reached-AllMade (looks {w = v} r₀ s₀ u cached w' before look) =
        subst AllMade
          (sym (looks_unchanged env (build_status_update_key r₀ s₀ u.id) v w' cached look))
          (Reached-AllMade before)
    Reached-AllMade (saves_grant {w = v} uuid dto scopes before) =
        Keeps-AllMade _ _ (save-Keeps env redis uuid dto scopes v) (Reached-AllMade before)
    Reached-AllMade (deletes_grant {w = v} id owner_id before) =
        Keeps-AllMade _ _ (delete-Keeps env redis id owner_id v) (Reached-AllMade before)
    Reached-AllMade (modifies_grant {w = v} id owner_id dates before) =
        Keeps-AllMade _ _ (modify-Keeps env redis id owner_id dates v) (Reached-AllMade before)
    Reached-AllMade (changes_updates before step) =
        Keeps-AllMade _ _ (Step-Keeps env redis step) (Reached-AllMade before)
    Reached-AllMade
          (stores {v₁ = v₁} {v₂ = v₂} {w = v} r₀ s₀ range grants updates u served w' is_r₀ is_s₀
            before₁ got passed before₂ found i before stored) =
        elim (re_encrypt_and_cache_inv env grants (build_status_update_key r₀ s₀ u.id) u v w' served
          stored) [
            | inl same ↦ λ r s id text is_r is_s has.
                Reached-AllMade before r s id text is_r is_s
                  (sym (ap (λ m. m (build_status_update_key r s id)) same) ∙ has)
            | inr (g, text, p, hit, has, made, set_is) ↦
                let (j, covers) = In-find (grant_covers u.recorded_at) g grants hit in
                let (row, test) = finds (in_range env s₀ range) v₂.updates updates found u i in
                stored_AllMade v w' r₀ s₀ u.id text is_r₀ is_s₀ set_is
                  (
                    v₁,
                    v₂,
                    g,
                    u,
                    before₁,
                    before₂,
                    (get_by_range_inv env grant_laws r₀ s₀ range v₁ v₁ grants got).1 g j,
                    row,
                    in_range_stream env s₀ range u test,
                    refl,
                    (covers, p, has, made),
                  )
                  (Reached-AllMade before)
          ]

    answer_of :
        (w : World) (r s id : String) (v : Option String) (cached : Json)
        → Reached env IsId start w
        → IsId r
        → IsId s
        → v ≡ w.strings (build_status_update_key r s id)
        → cached ≡ read_value env v
        → truthy cached ≡ true
        → (text : String) × (cached ≡ read_value env (some text)) × ReEncryptedFor r s id text
    unfolding read_value
    answer_of w r s id none cached reached is_r is_s at read filled =
        absurd (not_filled (rw read at filled))
    answer_of w r s id (some text) cached reached is_r is_s at read filled =
        (text, read, Reached-AllMade reached r s id text is_r is_s (sym at))

    -- However the turns of readers' requests interleave, with each other and with calls that save, delete and modify grants
    -- and append and remove updates, a payload that a call finds in the cache for an update, a reader and a
    -- stream was made of a row of that stream with the update's id, under the key of a grant of that stream to that
    -- reader that covers the row's time, each as it is in its table in a world that can be reached; if the cache had no
    -- payloads at the start, and requests are made with ids without colons.
    pub cached_is_for_reader :
        (w w' : World) (r s id : String) (cached : Json)
        → Reached env IsId start w
        → IsId r
        → IsId s
        → get env (build_status_update_key r s id) w ≡ (ok cached, w')
        → truthy cached ≡ true
        → (text : String) × (cached ≡ read_value env (some text)) × ReEncryptedFor r s id text
    cached_is_for_reader w w' r s id cached reached is_r is_s look filled =
        let (v, reads, read, _) = get_inv env (build_status_update_key r s id) w w' cached look in
        answer_of w r s id v cached reached is_r is_s (redis.get_reads _ w.strings v reads) read
          filled
