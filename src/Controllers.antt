-- ===== src/Controllers.antt =====
-- The handlers of `StatusController` (src/products/controllers/status.controller.ts) behind their scope check.
-- The token's signature, and the validation of bodies and parameters, are left to the framework.
pub mod Scoped
use core_status.Base.{String, Option, List}
use core_status.Data.Entities.{Grant, Stream, StreamType, Update}
use core_status.Data.Requests.{
  TokenData, TimeRangeDto, GrantDto, StreamTypeDto, CreateStreamRequestBody, StatusDto,
  StatusResult, GetUserStatusesParams, DeletedUpdate, SingleUpdateDeleteOptions,
  MassUpdateDeleteOptions, DeleteStatusDateRangeOptions,
}
use core_status.Effects.{World, Env, M, ◌>>=◌, query}
use core_status.Access.{
  scoped_token, status_manage_scope, grants_manage_scope, grants_delete_scope,
  grants_manage_range_scope, public_scope,
}
use core_status.Streams.{get_all, create, get_types, save_type, delete_type}
use core_status.Grants.Service.{
  get as get_grant_of, save as save_grant_of, delete as delete_grant_of, modify_range, get_my,
}
use core_status.Query.Options.{Query, QueryOptions, query_params}
use core_status.Query.Owner.{restricted_query}
use core_status.Status.Read.{get_user_statuses as statuses_of, Served, get_user_status_by_stream_id}
use core_status.Status.Write.{save as save_statuses}
use core_status.Status.Remove.{
  remove_status_update as remove_one, remove_status_updates, remove_status_updates_by_date_range,
}

-- `@ScopedTokenDataParam(scopes)`: the handler runs only for a token that passes.
unfoldable pub with_token : {A : Type 0} → List String → TokenData → (TokenData → M A) → M A
with_token scopes token handler = do
  token_data ← query (λ w. scoped_token scopes token)
  handler token_data

unfoldable pub get_user_statuses : Env → TokenData → GetUserStatusesParams → M (List Update)
get_user_statuses env token params =
    with_token status_manage_scope token (λ t. statuses_of env t.uuid params)

unfoldable pub append_status : Env → TokenData → List StatusDto → M (List StatusResult)
append_status env token status_updates =
    with_token status_manage_scope token (λ t. save_statuses env t.uuid status_updates)

unfoldable pub remove_status : Env → TokenData → MassUpdateDeleteOptions → M (List DeletedUpdate)
remove_status env token body =
    with_token status_manage_scope token (λ t. remove_status_updates env t.uuid body)

unfoldable pub remove_status_update : Env → TokenData → String → String → M DeletedUpdate
remove_status_update env token stream_id id =
    with_token status_manage_scope token
      (λ t. remove_one env t.uuid (record { id = id; stream_id = stream_id }))

unfoldable pub remove_status_by_date_range :
    Env → TokenData → DeleteStatusDateRangeOptions → M (List DeletedUpdate)
remove_status_by_date_range env token body =
    with_token status_manage_scope token (λ t. remove_status_updates_by_date_range env t.uuid body)

unfoldable pub get_streams : Env → TokenData → M (List Stream)
get_streams env token = with_token status_manage_scope token (λ t. get_all env)

unfoldable pub get_stream_by_date_range : Env → TokenData → TimeRangeDto → String → M (List Served)
get_stream_by_date_range env token body stream_id =
    with_token status_manage_scope token
      (λ t. get_user_status_by_stream_id env t.uuid stream_id body)

unfoldable pub create_grant : Env → TokenData → GrantDto → M Grant
create_grant env token grant =
    with_token grants_manage_scope token (λ t. save_grant_of env t.uuid grant t.scopes)

-- `find` is the database's answer to the options of a query.
unfoldable pub get_my_grants : (QueryOptions → M (List Grant)) → TokenData → Query → M (List Grant)
unfolding query_params restricted_query
get_my_grants find token request = with_token public_scope token (λ t.
    query (λ w. query_params (restricted_query "owner_id" t.sub request)) >>= λ options.
    get_my t (find options))

unfoldable pub get_grants_for_me :
    (QueryOptions → M (List Grant)) → TokenData → Query → M (List Grant)
unfolding query_params restricted_query
get_grants_for_me find token request =
    with_token public_scope token
      (λ t. query (λ w. query_params (restricted_query "recipient_id" t.sub request)) >>= find)

unfoldable pub get_grant : Env → TokenData → String → M Grant
get_grant env token id = with_token grants_manage_scope token (λ t. get_grant_of env id t.uuid)

unfoldable pub delete_grant : Env → TokenData → String → M Grant
delete_grant env token id =
    with_token grants_delete_scope token (λ t. delete_grant_of env id t.uuid)

unfoldable pub modify_grant_range : Env → TokenData → String → TimeRangeDto → M Grant
modify_grant_range env token id body =
    with_token grants_manage_range_scope token (λ t. modify_range env id t.uuid body)

unfoldable pub create_stream : Env → TokenData → String → CreateStreamRequestBody → M Stream
create_stream env token authorization body =
    with_token status_manage_scope token (λ t. create env t.uuid authorization body)

-- `getStreamTypes` and `deleteStreamType` take any valid token.
unfoldable pub get_stream_types : Env → M (List StreamType)
get_stream_types env = get_types env

unfoldable pub create_stream_type : Env → TokenData → StreamTypeDto → M (Option StreamType)
create_stream_type env token stream_type =
    with_token status_manage_scope token (λ t. save_type env stream_type)

unfoldable pub delete_stream_type : Env → String → M (List StreamType)
delete_stream_type env id = delete_type env id
