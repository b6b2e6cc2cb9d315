-- ===== src/Examples/Texts.antt =====
-- Keys of the cache, scopes of tokens, and query conditions, on concrete texts.
use core_status.Base.{
  String, ◌≡◌, ◌↔◌, ◌≤◌, refl, some, List, [], ◌∷◌, inl, inr, arith, ◌===◌, ===_iff, Bool-cases,
}
use core_status.Data.Errors.{http, ok}
use core_status.Data.Requests.{TokenData}
use core_status.Access.{
  status_grants_delete, grants_delete_scope, scoped_token, status_manage, keys_manage,
  status_manage_scope,
}
use core_status.Access.Laws.{times, Distinct, Contains, scoped_token_iff}
use core_status.Controllers.{delete_grant}
use core_status.Controllers.Scoped.{outcome, deletes_grant, writes_refused}
use core_status.Examples.Sample.{sample, start}

abbrev token_of : List String → TokenData
token_of scopes = record { uuid = "alice"; sub = "alice"; scopes = scopes }

Distinct-scopes : Distinct status_manage_scope
Distinct-scopes = (refl, (refl, tt))

once : (s : String) → times s (keys_manage ∷ status_manage ∷ []) ≤ 1
once s = elim (Bool-cases (keys_manage === s)) [
  | inl e ↦ rw (← (===_iff keys_manage s).0 e) (omega arith)
  | inr e ↦ rw e (ground arith)
]

scoped_token_iff_example :
    (scoped_token status_manage_scope (token_of (keys_manage ∷ status_manage ∷ []))
      ≡ ok (token_of (keys_manage ∷ status_manage ∷ [])))
    ↔ Contains status_manage_scope (keys_manage ∷ status_manage ∷ [])
scoped_token_iff_example =
    scoped_token_iff status_manage_scope (token_of (keys_manage ∷ status_manage ∷ []))
      Distinct-scopes once

writes_refused_example :
    outcome (delete_grant sample (token_of (keys_manage ∷ status_manage ∷ [])) "early" start)
    ≡ (some (http 403 "scopes violation"), start)
writes_refused_example =
    writes_refused (token_of (keys_manage ∷ status_manage ∷ [])) once status_grants_delete refl
      sample start grants_delete_scope _ refl (deletes_grant "early")
