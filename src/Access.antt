-- ===== src/Access.antt =====
-- Scopes of tokens (src/products/util/util.ts and src/products/commons/scope.decorator.ts).
pub mod Laws
use core_status.Base.{
  String, Bool, not, List, [], ◌∷◌, length, select, includes, ◌==◌, if◌then◌else◌,
}
use core_status.Data.Errors.{Result, ok, err, http}
use core_status.Data.Requests.{TokenData}

abbrev pub status_manage : String
status_manage = "status.manage"

abbrev pub keys_manage : String
keys_manage = "keys.manage"

abbrev pub status_grants_delete : String
status_grants_delete = "status.grants.delete"

abbrev pub status_grants_manage : String
status_grants_manage = "status.grants.manage"

abbrev pub status_grants_create_historical : String
status_grants_create_historical = "status.grants.create.historical"

abbrev pub status_grants_create_live : String
status_grants_create_live = "status.grants.create.live"

abbrev pub public_scope_name : String
public_scope_name = "public"

abbrev pub status_manage_scope : List String
status_manage_scope = status_manage ∷ keys_manage ∷ []

abbrev pub grants_delete_scope : List String
grants_delete_scope = status_grants_delete ∷ []

abbrev pub grants_manage_scope : List String
grants_manage_scope = status_grants_manage ∷ []

abbrev pub public_scope : List String
public_scope = public_scope_name ∷ []

abbrev pub grants_manage_range_scope : List String
grants_manage_range_scope = status_grants_manage ∷ status_grants_create_historical ∷ []

-- `ScopedTokenDataParam`: the token passes when as many of its scopes are required as are required.
unfoldable pub scoped_token : List String → TokenData → Result TokenData
scoped_token scopes token =
    if length (select (includes scopes) token.scopes) == length scopes
    then ok token
    else err (http 403 "scopes violation")
