-- ===== src/Status/Read/Turns/Sequential.antt =====
-- A request of the model, which makes its calls one after the other, is a number of turns.
use mathlib.Core.Path.{subst}
use core_status.Base.{
  String, ◌≡◌, refl, sym, ◌∙◌, ◌⊎◌, inl, inr, List, [], ◌∷◌, In, Bool-cases, arith,
}
use core_status.Data.Errors.{Error, Result, ok, err}
use core_status.Data.Json.{truthy}
use core_status.Data.Entities.{Grant, Update}
use core_status.Data.Requests.{TimeRangeDto}
use core_status.Effects.{World, Env, M, next, query, map_calls}
use core_status.Cache.{build_status_update_key, get}
use core_status.Grants.Range.{check_continuous_range}
use core_status.Grants.Service.{get_by_range}
use core_status.Status.Read.{Served, in_range, serve, get_user_status_by_stream_id}
use core_status.Status.Read.Turns.{Reached, looks, stores}

-- A chain of calls ends with its first part, or goes on.
next-cases :
    {A B : Type 0} (first : Result A × World) (f : A → M B) {result : Result B} {w' : World}
    → next first f ≡ (result, w')
    → ((e : Error) × (first ≡ (err e, w')))
      ⊎ ((a : A) × (w : World) × (first ≡ (ok a, w)) × (f a w ≡ (result, w')))
next-cases (ok a, w) f h = inr (a, w, refl, h)
next-cases (err e, w) f h = inl (e, ground arith)

query-unchanged :
    {A : Type 0} (f : World → Result A) (w w' : World) {result : Result A}
    → query f w ≡ (result, w')
    → w' ≡ w
query-unchanged f w w' h = ground arith

query_answer :
    {A : Type 0} (f : World → Result A) (w w' : World) {result : Result A}
    → query f w ≡ (result, w')
    → f w ≡ result
query_answer f w w' h = ground arith

grants-unchanged :
    (env : Env) (r s : String) (range : TimeRangeDto) (w w' : World) {result : Result (List Grant)}
    → get_by_range env r s range w ≡ (result, w')
    → w' ≡ w
unfolding get_by_range
grants-unchanged env r s range w w' h = ground arith

module _ (env : Env) (IsId : String → Type 0) (start : World) (r s : String) (range : TimeRangeDto)
    (is_r : IsId r) (is_s : IsId s) where
  module _ (v₁ v₂ : World) (grants : List Grant) (updates : List Update)
      (reached₁ : Reached env IsId start v₁) (got : get_by_range env r s range v₁ ≡ (ok grants, v₁))
      (passed : check_continuous_range env.sort_by_from_date env.date grants range ≡ ok tt)
      (reached₂ : Reached env IsId start v₂)
      (found : env.find_updates_by_upload (in_range env s range) v₂.updates ≡ ok updates) where
    serve-Reached :
        (u : Update) (w w' : World) {result : Result Served}
        → In u updates
        → Reached env IsId start w
        → serve env r s grants u w ≡ (result, w')
        → Reached env IsId start w'
    unfolding serve
    serve-Reached u w w' i reached h =
        elim (next-cases (get env (build_status_update_key r s u.id) w) _ h) [
          | inl (e, failed) ↦ looks r s u (err e) w' reached failed
          | inr (cached, x, look, rest) ↦ elim (Bool-cases (truthy cached)) [
            | inl there ↦
                subst (Reached env IsId start) (ground arith)
                  (looks r s u (ok cached) x reached look)
            | inr gone ↦
                stores r s range grants updates u _ w' is_r is_s reached₁ got passed reached₂ found
                  i (looks r s u (ok cached) x reached look) (rw gone at rest)
          ]
        ]

    serves-Reached :
        (us : List Update) (w w' : World) {result : Result (List Served)}
        → ((u : Update) → In u us → In u updates)
        → Reached env IsId start w
        → map_calls (serve env r s grants) us w ≡ (result, w')
        → Reached env IsId start w'
    serves-Reached [] w w' i reached h = subst (Reached env IsId start) (ground arith) reached
    serves-Reached (u ∷ us) w w' i reached h = elim (next-cases (serve env r s grants u w) _ h) [
      | inl (e, failed) ↦ serve-Reached u w w' (i u (inl refl)) reached failed
      | inr (y, x, served, rest) ↦
          let reached_x = serve-Reached u w x (i u (inl refl)) reached served in
          elim (next-cases (map_calls (serve env r s grants) us x) _ rest) [
            | inl (e, failed) ↦ serves-Reached us x w' (λ v j. i v (inr j)) reached_x failed
            | inr (ys, z, more, done) ↦
                subst (Reached env IsId start) (ground arith)
                  (serves-Reached us x z (λ v j. i v (inr j)) reached_x more)
          ]
    ]

  abbrev check : List Grant → World → Result (Unit {0})
  check grants v = check_continuous_range env.sort_by_from_date env.date grants range

  abbrev find_updates : World → Result (List Update)
  find_updates v = env.find_updates_by_upload (in_range env s range) v.updates

  at_end : (w w' : World) → w' ≡ w → Reached env IsId start w → Reached env IsId start w'
  at_end w w' same reached = subst (Reached env IsId start) (sym same) reached

  -- A request that is made in a world that is reached leads to a world that is reached, however it ends.
  pub request-Reached :
      (w w' : World) {result : Result (List Served)}
      → Reached env IsId start w
      → get_user_status_by_stream_id env r s range w ≡ (result, w')
      → Reached env IsId start w'
  unfolding get_user_status_by_stream_id
  request-Reached w w' reached h = elim (next-cases (get_by_range env r s range w) _ h) [
    | inl (e, failed) ↦ at_end w w' (grants-unchanged env r s range w w' failed) reached
    | inr (grants, w₁, got, h₁) ↦
        let same = grants-unchanged env r s range w w₁ got in
        elim (next-cases (query (check grants) w₁) _ h₁) [
          | inl (e, refused) ↦
              at_end w w' (query-unchanged (check grants) w₁ w' refused ∙ same) reached
          | inr (done, w₂, passed, h₂) ↦
              let same₂ = query-unchanged (check grants) w₁ w₂ passed ∙ same in
              elim (next-cases (query find_updates w₂) _ h₂) [
                | inl (e, failed) ↦
                    at_end w w' (query-unchanged find_updates w₂ w' failed ∙ same₂) reached
                | inr (updates, w₃, found, h₃) ↦
                    let reached₂ = at_end w w₂ same₂ reached in
                    serves-Reached w w₂ grants updates reached
                      (subst (λ v. get_by_range env r s range w ≡ (ok grants, v)) same got)
                      (query_answer (check grants) w₁ w₂ passed) reached₂
                      (query_answer find_updates w₂ w₃ found) updates w₃ w' (λ u i. i)
                      (at_end w₂ w₃ (query-unchanged find_updates w₂ w₃ found) reached₂) h₃
              ]
        ]
  ]
