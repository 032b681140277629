-- ===== src/Endpoints.antt =====
-- projects/endpoints/endpoints.service.ts: the operations that change the endpoints of a project.
-- The client, the linter, new ids and the time are arguments. A body without a transaction makes
-- one write, so a failure leaves the database as it was.
pub mod Status
mod Update
pub mod Concurrency
pub mod Listing
mod Tests
use schematica_api.ApiLinting.{Linter, lint_spec}
use schematica_api.Common.{
  String, ℕ, Bool, true, false, ◌&&◌, Option, none, some, List, [], ◌∷◌, ◌++◌, length, any, keep,
  ltb, not, ◌==◌, nat_eq, if◌then◌else◌, to_lower_case,
}
use schematica_api.Database.{Database, PrismaService}
use schematica_api.Entities.{
  Endpoint, EndpointStatus, in_review, draft, status_eq, Project, User, SchemaComponent,
}
use schematica_api.Events.{
  Event, Done, endpoint_created, endpoint_deleted, endpoint_updated, endpoint_status_updated,
  review_requested, audit,
}
use schematica_api.Exceptions.{
  Exception, Result, ok, throw, bad_request, spec_linting, endpoint_conflict, project_not_found,
  endpoint_not_found, endpoint_concurrency, endpoint_status_concurrency,
}
use schematica_api.Exceptions
use schematica_api.Http.{is_valid_method}
use schematica_api.Json.{Value, null, str, obj, Fields, end, field, get_field, set_field}
use schematica_api.Prisma.Errors.{
  Outcome, Try, fine, raise, Caught, prisma_error, app_error, attempt, or_not_found, no_mappings,
  handle_prisma_error, try_catch, other_code, ◌>>=◌,
}
use schematica_api.Reconciliation.Operations.{metadata_key}
use schematica_api.User.{UserDto}

pub record CreateEndpointDto : Type 0 where
  pub path : String
  pub method : String
  pub operation : Fields
  pub status : Option EndpointStatus

pub record UpdateEndpointDto : Type 0 where
  pub path : String
  pub method : String
  pub operation : Fields
  pub last_known_updated_at : String
  pub status : Option EndpointStatus

-- The loop of `getProjectSchemas`.
schemas_from : List SchemaComponent → Fields → Fields
schemas_from [] schemas = schemas
schemas_from (c ∷ cs) schemas = schemas_from cs (set_field c.name c.schema schemas)

-- The document of one operation that `lintOperation` hands to the linter.
minimal_spec : Fields → String → String → Fields → Fields
minimal_spec operation path method schemas = field "openapi" (str "3.0.0") (
    field "info"
      (obj (
        field "title" (str "Validation Spec") (
          field "version" (str "1.0.0")
            (field "description" (str "A temporary spec for single-endpoint validation.") end))))
      (field "paths" (obj (field path (obj (field method (obj operation) end)) end))
        (field "components" (obj (field "schemas" (obj schemas) end)) end)))

unfoldable pub lint_operation : Linter → Fields → String → String → Fields → Result (Unit {0})
unfolding minimal_spec
lint_operation spectral operation path method schemas =
    if is_valid_method (to_lower_case method)
    then Exceptions.◌>>=◌
        (lint_spec spectral (minimal_spec operation path (to_lower_case method) schemas))
        (λ issues. if ltb 0 (length issues) then throw (spec_linting (length issues)) else ok tt)
    else throw (bad_request "Invalid HTTP method")

abbrev metadata : Value → Value → String → String → Value
metadata created_by created_at last_edited_by last_edited_at = obj (
    field "createdBy" created_by (
      field "createdAt" created_at (
        field "lastEditedBy" (str last_edited_by) (field "lastEditedAt" (str last_edited_at) end))))

-- `value ?? fallback` on a field of the metadata that may be missing.
abbrev field_or : String → Value → Value → Value
field_or name meta fallback = elim meta [
  | obj fs ↦ elim (get_field name fs) [ none ↦ fallback | some null ↦ fallback | some v ↦ v ]
  | _ ↦ fallback
]

-- `existingEndpoint.operation?.['x-app-metadata']`
abbrev pub metadata_of : Value → Value
metadata_of (obj fs) = elim (get_field metadata_key fs) [ none ↦ null | some v ↦ v ]
metadata_of _ = null

abbrev pub or_else {ℓ} : {A : Type ℓ} → Option A → A → A
or_else none a = a
or_else (some b) a = b

module _ (client : PrismaService) where
  pub get_project_schemas : Database → String → Fields
  get_project_schemas db project_id =
      schemas_from
        (client.schema_component.find_many (λ c. c.project_id == project_id) db.schema_components)
        end

  -- The foreign keys of a new endpoint: its project and its creator exist.
  abbrev pub is_linked : Database → String → String → Bool
  is_linked db project_id user_id =
      any (λ p. p.id == project_id) db.projects && any (λ u. u.id == user_id) db.users

  unfoldable pub create :
      Linter
      → Database
      → String
      → CreateEndpointDto
      → UserDto
      → String
      → String
      → Result (Done Endpoint)
  unfolding schemas_from get_project_schemas
  create spectral db project_id dto creator new_id now =
      Exceptions.◌>>◌
        (lint_operation spectral dto.operation dto.path dto.method
          (get_project_schemas db project_id))
        (try_catch
          (do
            endpoints ← attempt (
                client.endpoint.create (is_linked db project_id creator.id) new_endpoint
                  db.endpoints)
            fine (record {
              db = record db { endpoints = endpoints };
              events = endpoint_created creator project_id new_id dto.method dto.path ∷ [];
              value = new_endpoint;
            }))
          (λ e. handle_prisma_error e (record no_mappings {
            unique = some (endpoint_conflict dto.method dto.path);
            foreign_key = some (project_not_found project_id);
          })))
    where
      new_endpoint : Endpoint
      new_endpoint = record {
        id = new_id;
        path = dto.path;
        method = dto.method;
        status = or_else dto.status draft;
        operation = obj (
            set_field metadata_key (metadata (str creator.username) (str now) creator.username now)
              dto.operation);
        project_id = project_id;
        creator_id = creator.id;
        updated_by_id = creator.id;
        created_at = now;
        updated_at = now;
      }

  -- The row that an update writes; `@updatedAt` stamps it with the time.
  pub updated_endpoint :
      UpdateEndpointDto → UserDto → String → Endpoint → String → Endpoint → Endpoint
  updated_endpoint dto updater creator_username existing now row = record row {
    path = dto.path;
    method = dto.method;
    status = or_else dto.status row.status;
    operation = obj (
        set_field metadata_key
          (metadata (field_or "createdBy" (metadata_of existing.operation) (str creator_username))
            (field_or "createdAt" (metadata_of existing.operation) (str existing.created_at))
            updater.username now)
          dto.operation);
    updated_by_id = updater.id;
    updated_at = now;
  }

  unfoldable pub update_try :
      Database → String → String → UpdateEndpointDto → UserDto → String → Try (Done Endpoint)
  update_try db project_id endpoint_id dto updater now = do
    existing ← or_not_found (
        client.endpoint.find_first (λ e. e.id == endpoint_id && e.project_id == project_id)
          db.endpoints)
    creator ← or_not_found (client.user.find_first (λ u. u.id == existing.creator_id) db.users)
    written ← attempt (
        client.endpoint.update (any (λ u. u.id == updater.id) db.users)
          (λ e.
            e.id == endpoint_id
            && (e.project_id == project_id && e.updated_at == dto.last_known_updated_at))
          (updated_endpoint dto updater creator.username existing now) db.endpoints)
    fine (record {
      db = record db { endpoints = written.0 };
      events = endpoint_updated updater project_id existing written.1 ∷ [];
      value = written.1;
    })

  unfoldable pub update :
      Linter
      → Database
      → String
      → String
      → UpdateEndpointDto
      → UserDto
      → String
      → Result (Done Endpoint)
  unfolding schemas_from get_project_schemas
  update spectral db project_id endpoint_id dto updater now =
      Exceptions.◌>>◌
        (lint_operation spectral dto.operation dto.path dto.method
          (get_project_schemas db project_id))
        (try_catch (update_try db project_id endpoint_id dto updater now) (λ e.
          handle_prisma_error e (record no_mappings {
            missing = some endpoint_concurrency;
            unique = some (endpoint_conflict dto.method dto.path);
          })))

  unfoldable pub remove : Database → String → String → UserDto → Result (Done (Unit {0}))
  remove db project_id endpoint_id user =
      try_catch
        (do
          deleted ← attempt (
              client.endpoint.delete (λ e. e.id == endpoint_id && e.project_id == project_id)
                db.endpoints)
          fine (record {
            db = record db {
              endpoints = deleted.0;
              notes =
                  -- `onDelete: Cascade`
                  keep (λ n. not (n.endpoint_id == endpoint_id)) db.notes;
            };
            events =
                endpoint_deleted user project_id endpoint_id (deleted.1).method (deleted.1).path
                ∷ [];
            value = tt;
          }))
        (λ e.
          handle_prisma_error e
            (record no_mappings { missing = some (endpoint_not_found endpoint_id) }))
