-- ===== src/Grants/Service.antt =====
-- The operations of `GrantService` (src/products/services/grant.service.ts) other than the range check, and the
-- repository calls that they make.
pub mod Save
pub mod Singleton
pub mod Delete
pub mod Dates
pub mod Race
use core_status.Base.{
  ℕ, String, Bool, true, false, not, ◌&&◌, ◌||◌, Option, none, some, List, [], ◌∷◌, ◌===◌, includes,
  leb, if◌then◌else◌,
}
use core_status.Data.Errors.{
  Error, Result, ok, err, failure, bad_request, grant_not_found, grant_invalid_token_scope,
  singleton_grant_exists, grant_operation_not_allowed, channel_group_removal_error,
}
use core_status.Data.Entities.{
  Grant, GrantType, range, all, latest, Stream, StreamType, is_grant_type, includes_type,
}
use core_status.Data.Requests.{GrantDto, TimeRangeDto, TokenData}
use core_status.Effects.{World, Env, M, pure, throw, throw_if, ◌>>=◌, ◌>>◌, catch, query, commit}
use core_status.Access.{
  status_grants_create_historical, status_grants_create_live, status_grants_manage,
}
use core_status.Streams.{get_by_id}
use core_status.Subscribers.{after_insert, remove_from_channel_group}
use core_status.Grants.Range.{at_most}

-- `get`: a caller's own grant, or 404
abbrev found_or_404 : Option Grant → M Grant
found_or_404 none = throw grant_not_found
found_or_404 (some g) = pure g

abbrev pub is_own : String → String → Grant → Bool
is_own id owner_id g = g.id === id && g.owner_id === owner_id

unfoldable pub get : Env → String → String → M Grant
get env id owner_id = do
  grant ← query (λ w. env.grant_table.find_one (is_own id owner_id) w.grants)
  found_or_404 grant

-- the `where` of `avoidExistingSingletonGrant`
abbrev pub is_singleton : String → String → String → Grant → Bool
is_singleton stream_id owner_id recipient_id g =
    g.stream_id === stream_id
    && g.owner_id === owner_id
    && g.recipient_id === recipient_id
    && is_grant_type g.type latest

abbrev pub is_empty : List Grant → Bool
is_empty [] = true
is_empty (g ∷ gs) = false

unfoldable pub avoid_existing_singleton_grant : Env → String → String → String → M (Unit {0})
avoid_existing_singleton_grant env stream_id owner_id recipient_id = do
  found ← query (λ w. env.grant_table.find (is_singleton stream_id owner_id recipient_id) w.grants)
  throw_if (not (is_empty found)) singleton_grant_exists

-- The insert of `repository.save`, with its subscriber; what TypeORM leaves of the insert where that throws is
-- `roll_back`.
undo : Env → World → Error → M Grant
undo env before e w = throw e (record w { grants = env.roll_back before.grants w.grants })

unfoldable pub save_grant : Env → GrantDto → M Grant
unfolding undo
save_grant env dto before =
    (catch
        (do
          grant ← λ w.
              commit (env.grant_table.insert dto w.grants) (λ rows. record w { grants = rows }) w
          after_insert env grant
          pure grant)
        (undo env before))
      before

abbrev pub is_historical : GrantType → Bool
is_historical type = is_grant_type type all || is_grant_type type range

abbrev pub is_live : GrantType → Bool
is_live type = is_grant_type type all || is_grant_type type latest

-- the checks of scopes and of an existing singleton, which come first
unfoldable pub check_scopes : Env → String → GrantDto → List String → M (Unit {0})
unfolding avoid_existing_singleton_grant
check_scopes env uuid dto scopes = do
  throw_if (is_historical dto.type && not (includes scopes status_grants_create_historical))
      grant_invalid_token_scope
  if is_live dto.type
      then (do
        throw_if (not (includes scopes status_grants_create_live)) grant_invalid_token_scope
        avoid_existing_singleton_grant env dto.stream_id uuid dto.recipient_id)
      else pure tt

-- the stream must be there, be the caller's, and its type must support the grant's type
abbrev pub allowed_owner : String → GrantType → Option (Stream × StreamType) → M String
allowed_owner uuid type none = throw (bad_request "Bad Request")
allowed_owner uuid type (some (stream, kind)) =
    if uuid === stream.owner_id && includes_type kind.supported_grants type
    then pure stream.owner_id
    else throw (bad_request "Bad Request")

unfoldable pub save : Env → String → GrantDto → List String → M Grant
unfolding check_scopes get_by_id save_grant
save env uuid dto scopes = do
  check_scopes env uuid dto scopes
  stream ← get_by_id env dto.stream_id
  owner ← allowed_owner uuid dto.type stream
  save_grant env (record dto { owner_id = owner })

-- the `map` of `getMy`
unfoldable pub without_properties : List String → List Grant → List Grant
without_properties scopes [] = []
without_properties scopes (g ∷ gs) =
    (if not (includes scopes status_grants_manage) then record g { properties = none } else g)
    ∷ without_properties scopes gs

-- `getMy`, from the grants that `find` answers with
unfoldable pub get_my : TokenData → M (List Grant) → M (List Grant)
unfolding without_properties
get_my token find = do grants ← find; pure (without_properties token.scopes grants)

-- `raw[0]`, or 404 where no row was deleted
abbrev pub first_deleted : List Grant → M Grant
first_deleted [] = throw grant_not_found
first_deleted (g ∷ gs) = pure g

unfoldable pub delete_grant : Env → String → String → M (List Grant)
delete_grant env id owner_id w =
    commit (env.grant_table.remove (is_own id owner_id) w.grants)
      (λ rows. record w { grants = rows }) w

unfoldable pub delete : Env → String → String → M Grant
unfolding get delete_grant
delete env id owner_id = do
  grant ← get env id owner_id
  catch (remove_from_channel_group env grant) (λ e. throw channel_group_removal_error)
  raw ← delete_grant env id owner_id
  first_deleted raw

-- The database reads the two dates; a text that is no date is refused by it.
read_range : Env → TimeRangeDto → Result (ℕ × ℕ)
read_range env dates = elim (env.database_date dates.from_date) [
  | none ↦ err (failure "22007" "invalid input syntax for type timestamp with time zone")
  | some from ↦ elim (env.database_date dates.to_date) [
    | none ↦ err (failure "22007" "invalid input syntax for type timestamp with time zone")
    | some to ↦ ok (from, to)
  ]
]

-- `repository.save` of a grant that is in the table: its row is updated by its id.
unfoldable pub save_dates : Env → String → ℕ × ℕ → M (List Grant)
save_dates env id dates w =
    commit
      (env.grant_table.update (λ g. g.id === id)
        (λ g. record g { from_date = dates.0; to_date = dates.1 }) w.grants)
      (λ rows. record w { grants = rows }) w

unfoldable pub modify_range : Env → String → String → TimeRangeDto → M Grant
unfolding get read_range save_dates
modify_range env id owner_id dates = do
  grant ← get env id owner_id
  throw_if (not (is_grant_type grant.type range)) grant_operation_not_allowed
  read ← query (λ w. read_range env dates)
  saved ← save_dates env grant.id read
  pure (record grant { from_date = read.0; to_date = read.1 })

-- The `where` of `getByRange`. A text that is no date, at which the database throws, is one that no row meets: the
-- request is refused either way, as the range check passes for no empty list.
unfoldable pub meets : Env → String → String → TimeRangeDto → Grant → Bool
meets env recipient_id stream_id dates g =
    g.recipient_id === recipient_id
    && g.stream_id === stream_id
    && at_most (some g.from_date) (env.database_date dates.to_date)
    && at_most (env.database_date dates.from_date) (some g.to_date)

unfoldable pub get_by_range : Env → String → String → TimeRangeDto → M (List Grant)
unfolding meets
get_by_range env recipient_id stream_id dates =
    query (λ w. env.grant_table.find (meets env recipient_id stream_id dates) w.grants)
