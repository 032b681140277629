-- ===== src/Routes.antt =====
-- projects/endpoints/endpoints.controller.ts, locking/locking.controller.ts and
-- projects/secrets/secrets.controller.ts: a request passes the guards of its route in their order,
-- and then calls the service. The user has passed the guard for tokens, and the framework hands the
-- parameters of the path over; `now` is the reading of the clock for a lock.
pub mod Editing
pub mod Foreign
mod Tests
use schematica_api.ApiLinting.{Linter}
use schematica_api.Common.{
  String, ℕ, Bool, true, false, Option, none, some, List, Integer, parse_int,
}
use schematica_api.Database.{Database, PrismaService}
use schematica_api.Encryption.{Cipher}
use schematica_api.Endpoints
use schematica_api.Endpoints.{CreateEndpointDto, UpdateEndpointDto}
use schematica_api.Endpoints.Listing.{
  EndpointDto, EndpointSummaryDto, find_all_for_project, find_one_by_id,
}
use schematica_api.Endpoints.Status.{update_status}
use schematica_api.Entities.{Endpoint, EndpointStatus}
use schematica_api.Events.{Done}
use schematica_api.Exceptions.{Lock, Result, ok, throw, bad_request, ◌>>=◌, ◌>>◌}
use schematica_api.Guards.{
  project_owner_guard, project_viewer_guard, endpoint_project_match_guard, lock_owner_guard,
  resource_relations_guard, ResourceRelationsConfig, project_model, environment_model,
}
use schematica_api.Locking.{LockingService, acquire_lock, release_lock}
use schematica_api.Pagination.{PaginationQueryDto, PaginatedServiceResponse, OrderBy}
use schematica_api.Secrets
use schematica_api.Secrets.{CreateSecretDto, UpdateSecretDto, SecretDto}
use schematica_api.User.{UserDto}

-- The relations that the routes of the secrets ask for.
abbrev pub environment_of_project : ResourceRelationsConfig
environment_of_project = record {
  parent_model = project_model;
  parent_param = "projectId";
  child_model_name = some "Environment";
  child_param = "environmentId";
  child_param_is_int = false;
}

abbrev pub secret_of_environment : ResourceRelationsConfig
secret_of_environment = record {
  parent_model = environment_model;
  parent_param = "environmentId";
  child_model_name = some "Secret";
  child_param = "secretId";
  child_param_is_int = true;
}

module _ (client : PrismaService) where
  -- `@UseGuards(EndpointProjectMatchGuard, ProjectOwnerGuard)`
  unfoldable pub owns_endpoint : Database → UserDto → String → String → Result Bool
  owns_endpoint db user project_id endpoint_id = do
    matched ← endpoint_project_match_guard client db (some project_id) (some endpoint_id)
    project_owner_guard client db (some user) (some project_id)

  unfoldable pub get_endpoints :
      OrderBy
      → Database
      → UserDto
      → String
      → PaginationQueryDto
      → Result (PaginatedServiceResponse EndpointSummaryDto)
  get_endpoints order_by db user project_id query = do
    passed ← project_viewer_guard client db user (some project_id)
    ok (find_all_for_project client order_by db project_id query)

  unfoldable pub get_endpoint : Database → UserDto → String → String → Result EndpointDto
  get_endpoint db user project_id endpoint_id = do
    matched ← endpoint_project_match_guard client db (some project_id) (some endpoint_id)
    passed ← project_viewer_guard client db user (some project_id)
    find_one_by_id client db project_id endpoint_id

  unfoldable pub post_endpoint :
      Linter
      → Database
      → UserDto
      → String
      → CreateEndpointDto
      → String
      → String
      → Result (Done Endpoint)
  post_endpoint spectral db user project_id dto new_id now = do
    passed ← project_owner_guard client db (some user) (some project_id)
    Endpoints.create client spectral db project_id dto user new_id now

  -- `at` is the clock of the guard, `now` the text of the time that the service stores.
  unfoldable pub put_endpoint :
      Linter
      → Database
      → LockingService
      → ℕ
      → UserDto
      → String
      → String
      → UpdateEndpointDto
      → String
      → Result (Done Endpoint)
  unfolding owns_endpoint
  put_endpoint spectral db locking at user project_id endpoint_id dto now = do
    owned ← owns_endpoint db user project_id endpoint_id
    locked ← lock_owner_guard (some endpoint_id) user at locking
    Endpoints.update client spectral db project_id endpoint_id dto user now

  unfoldable pub post_endpoint_status :
      Database
      → Database
      → UserDto
      → String
      → String
      → EndpointStatus
      → String
      → Result (Done Endpoint)
  unfolding owns_endpoint
  post_endpoint_status before db user project_id endpoint_id status now = do
    owned ← owns_endpoint before user project_id endpoint_id
    update_status client before db project_id endpoint_id status user now

  unfoldable pub delete_endpoint : Database → UserDto → String → String → Result (Done (Unit {0}))
  unfolding owns_endpoint
  delete_endpoint db user project_id endpoint_id = do
    owned ← owns_endpoint db user project_id endpoint_id
    Endpoints.remove client db project_id endpoint_id user

  -- `LockingController`
  unfoldable pub post_lock :
      Database → LockingService → UserDto → String → String → ℕ → ℕ → Result (LockingService × Lock)
  unfolding owns_endpoint
  post_lock db locking user project_id endpoint_id checked now = do
    owned ← owns_endpoint db user project_id endpoint_id
    acquire_lock endpoint_id user checked now locking

  unfoldable pub delete_lock :
      Database → LockingService → UserDto → String → String → Result LockingService
  unfolding owns_endpoint
  delete_lock db locking user project_id endpoint_id = do
    owned ← owns_endpoint db user project_id endpoint_id
    ok (release_lock endpoint_id user.id locking)

  -- `@UseGuards(ProjectOwnerGuard, ResourceRelationsGuard)` with a relation
  unfoldable pub owns_related :
      Database → ResourceRelationsConfig → UserDto → String → String → String → Result Bool
  owns_related db relation user project_id parent_id child_id = do
    owned ← project_owner_guard client db (some user) (some project_id)
    resource_relations_guard client db (some relation) (some parent_id) (some child_id)

  module _ (cipher : Cipher) (pipe : String → Option ℕ) where
    unfoldable pub post_secret :
        Database
        → UserDto
        → String
        → String
        → CreateSecretDto
        → ℕ
        → String
        → Result (Done SecretDto)
    unfolding owns_related
    post_secret db user project_id environment_id dto new_id iv = do
      passed ← owns_related db environment_of_project user project_id project_id environment_id
      Secrets.create client cipher db environment_id dto user new_id iv

    unfoldable pub get_secrets : Database → UserDto → String → String → Result (List SecretDto)
    unfolding owns_related
    get_secrets db user project_id environment_id = do
      passed ← owns_related db environment_of_project user project_id project_id environment_id
      Secrets.find_all_for_environment client cipher db environment_id

    -- `ParseIntPipe`, of the framework, runs after the guards.
    unfoldable pub parsed_id : String → Result ℕ
    parsed_id param = elim (pipe param) [
      | none ↦ throw (bad_request "Validation failed (numeric string is expected)")
      | some id ↦ ok id
    ]

    unfoldable pub patch_secret :
        Database
        → UserDto
        → String
        → String
        → String
        → UpdateSecretDto
        → String
        → Result (Done SecretDto)
    unfolding owns_related parsed_id
    patch_secret db user project_id environment_id param dto iv = do
      passed ← owns_related db secret_of_environment user project_id environment_id param
      secret_id ← parsed_id param
      Secrets.update client cipher db environment_id secret_id dto user iv

    unfoldable pub delete_secret :
        Database → UserDto → String → String → String → Result (Done (Unit {0}))
    unfolding owns_related parsed_id
    delete_secret db user project_id environment_id param = do
      passed ← owns_related db secret_of_environment user project_id environment_id param
      secret_id ← parsed_id param
      Secrets.remove client cipher db environment_id secret_id user
