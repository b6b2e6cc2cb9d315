-- ===== src/Controllers/Scoped.antt =====
-- What the scope check of the handlers lets through.
use mathlib.Core.Bool.{false≢true}
use core_status.Base.{
  String, ◌≡◌, ◌≤◌, refl, sym, ◌∙◌, true, false, Option, none, some, List, [], ◌∷◌, length, select,
  includes, ◌===◌, ===_iff, ◌==◌, Bool-cases, inl, inr,
}
use core_status.Data.Errors.{Error, Result, ok, err, http}
use core_status.Data.Requests.{
  TokenData, GrantDto, TimeRangeDto, MassUpdateDeleteOptions, StatusDto,
  DeleteStatusDateRangeOptions, CreateStreamRequestBody, StreamTypeDto,
}
use core_status.Effects.{World, Env, M}
use core_status.Access.{
  scoped_token, status_manage_scope, grants_manage_scope, grants_delete_scope,
  grants_manage_range_scope,
}
use core_status.Access.Laws.{times, Distinct, Contains, scoped_token_iff}
use core_status.Controllers.{
  with_token, append_status, remove_status, remove_status_update, remove_status_by_date_range,
  create_grant, delete_grant, modify_grant_range, create_stream, create_stream_type,
}

-- how a request ends: with what error, if any, and in what world
abbrev pub outcome : {A : Type 0} → Result A × World → Option Error × World
outcome (ok a, w) = (none, w)
outcome (err e, w) = (some e, w)

-- A request to a handler that writes and demands scopes: the scopes that the interface promises for it, and how it ends.
pub data Write (env : Env) (token : TokenData) (w : World)
    : List String → Option Error × World → Type 0 where
  appends :
      (statuses : List StatusDto)
      → Write env token w status_manage_scope (outcome (append_status env token statuses w))
  removes :
      (body : MassUpdateDeleteOptions)
      → Write env token w status_manage_scope (outcome (remove_status env token body w))
  removes_one :
      (stream_id id : String)
      → Write env token w status_manage_scope
          (outcome (remove_status_update env token stream_id id w))
  removes_range :
      (body : DeleteStatusDateRangeOptions)
      → Write env token w status_manage_scope
          (outcome (remove_status_by_date_range env token body w))
  creates_grant :
      (grant : GrantDto)
      → Write env token w grants_manage_scope (outcome (create_grant env token grant w))
  deletes_grant :
      (id : String) → Write env token w grants_delete_scope (outcome (delete_grant env token id w))
  modifies_grant :
      (id : String) (body : TimeRangeDto)
      → Write env token w grants_manage_range_scope
          (outcome (modify_grant_range env token id body w))
  creates_stream :
      (authorization : String) (body : CreateStreamRequestBody)
      → Write env token w status_manage_scope
          (outcome (create_stream env token authorization body w))
  creates_type :
      (stream_type : StreamTypeDto)
      → Write env token w status_manage_scope (outcome (create_stream_type env token stream_type w))

Contains-includes :
    (scopes have : List String) (scope : String)
    → Contains scopes have
    → includes scopes scope ≡ true
    → includes have scope ≡ true
Contains-includes [] have scope c i = cc
Contains-includes (s ∷ ss) have scope c i = elim (Bool-cases (s === scope)) [
  | inl e ↦ rw (← (===_iff s scope).0 e) c.0
  | inr e ↦ Contains-includes ss have scope c.1 (rw e at i)
]

module _ (token : TokenData) (once : (s : String) → times s token.scopes ≤ 1) (scope : String)
    (lacks : includes token.scopes scope ≡ false) where
  scoped_token_refuses :
      (scopes : List String)
      → Distinct scopes
      → includes scopes scope ≡ true
      → scoped_token scopes token ≡ err (http 403 "scopes violation")
  unfolding scoped_token
  scoped_token_refuses scopes distinct demanded =
      elim (Bool-cases (length (select (includes scopes) token.scopes) == length scopes)) [
        | inl e ↦
            (let has = (scoped_token_iff scopes token distinct once).0 (rw e refl) in
              absurd
                (false≢true (sym lacks ∙ Contains-includes scopes token.scopes scope has demanded)))
        | inr e ↦ rw e refl
      ]

  with_token_refuses :
      {A : Type 0} (scopes : List String) (handler : TokenData → M A) (w : World)
      → Distinct scopes
      → includes scopes scope ≡ true
      → outcome (with_token scopes token handler w) ≡ (some (http 403 "scopes violation"), w)
  unfolding with_token
  with_token_refuses scopes handler w distinct demanded =
      rw (scoped_token_refuses scopes distinct demanded) refl

  -- A request to a handler that writes, of a token that names no scope twice and lacks one of the scopes that are promised
  -- for the handler, is answered with 403, and nothing changes.
  pub writes_refused :
      (env : Env) (w : World) (scopes : List String) (end : Option Error × World)
      → includes scopes scope ≡ true
      → Write env token w scopes end
      → end ≡ (some (http 403 "scopes violation"), w)
  unfolding append_status remove_status remove_status_update remove_status_by_date_range
      create_grant delete_grant modify_grant_range create_stream create_stream_type
  writes_refused env w scopes end i (appends x) = with_token_refuses _ _ w (refl, (refl, tt)) i
  writes_refused env w scopes end i (removes x) = with_token_refuses _ _ w (refl, (refl, tt)) i
  writes_refused env w scopes end i (removes_one x y) =
      with_token_refuses _ _ w (refl, (refl, tt)) i
  writes_refused env w scopes end i (removes_range x) =
      with_token_refuses _ _ w (refl, (refl, tt)) i
  writes_refused env w scopes end i (creates_grant x) = with_token_refuses _ _ w (refl, tt) i
  writes_refused env w scopes end i (deletes_grant x) = with_token_refuses _ _ w (refl, tt) i
  writes_refused env w scopes end i (modifies_grant x y) =
      with_token_refuses _ _ w (refl, (refl, tt)) i
  writes_refused env w scopes end i (creates_stream x y) =
      with_token_refuses _ _ w (refl, (refl, tt)) i
  writes_refused env w scopes end i (creates_type x) = with_token_refuses _ _ w (refl, (refl, tt)) i
