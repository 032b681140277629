-- ===== src/Projects/Import.antt =====
-- projects/projects.service.ts, `importOpenApiSpec`. Resolving the references of a document
-- (swagger-parser) is a parameter: the document without references, the message of an `Error`, or
-- something else that was thrown. The ids of the new endpoints are given by their entries.
pub mod Unchanged
use schematica_api.Access.{Grants}
use schematica_api.ApiLinting.{Linter, lint_spec}
use schematica_api.Common.{
  String, ℕ, Bool, true, false, not, ◌&&◌, Option, none, some, List, [], ◌∷◌, any, keep, length,
  ltb, ◌==◌, if◌then◌else◌, to_lower_case,
}
use schematica_api.Database.{Database, PrismaService}
use schematica_api.Entities.{Endpoint, Project, draft}
use schematica_api.Events.{Event, Done, audit}
use schematica_api.Exceptions.{
  Exception, Result, ok, throw, spec_circular_dependency, spec_validation, spec_linting,
  project_concurrency, project_conflict, internal_server_error, error,
}
use schematica_api.Json.{Value, null, str, arr, obj, Fields, get_field}
use schematica_api.Prisma.Errors.{
  Try, fine, raise, Caught, app_error, attempt, or_not_found, or_raise, no_mappings,
  handle_prisma_error, try_catch, ◌>>=◌, ◌>>◌,
}
use schematica_api.Projects.{has_project_id, is_current, with_projects}
use schematica_api.Reconciliation.{EndpointCreate, EndpointToUpdate, reconcile}
use schematica_api.Secrets.{lift}
use schematica_api.User.{UserDto}
use text.Mathlib.Text.{find?}

pub data Dereferenced : Type 0 where
  resolved : Fields → Dereferenced
  failed : String → Dereferenced
  unknown : Dereferenced

abbrev pub Parser : Type 0
Parser = Fields → Dereferenced

-- `message.toLowerCase().includes('circular')`
abbrev is_circular : String → Bool
is_circular message = elim (find? (to_lower_case message) "circular") [
  | none ↦ false
  | some i ↦ true
]

unfoldable pub dereference : Parser → Fields → Try Fields
dereference parser spec = elim (parser spec) [
  | resolved document ↦ fine document
  | failed message ↦
      if is_circular message
      then raise (app_error (spec_circular_dependency (some message)))
      else raise (app_error (spec_validation message))
  | unknown ↦ raise (app_error (spec_validation "An unknown validation error occurred."))
]

unfoldable pub lint : Linter → Fields → Try (Unit {0})
lint spectral document = do
  issues ← lift (lint_spec spectral document)
  if ltb 0 (length issues) then raise (app_error (spec_linting (length issues))) else fine tt

-- A field of `info`, none where it is undefined.
abbrev pub info_field : String → Fields → Option Value
info_field name document = elim (get_field "info" document) [
  | some (obj info) ↦ get_field name info
  | _ ↦ none
]

abbrev pub title_of : Fields → Option String
title_of document = elim (info_field "title" document) [ some (str s) ↦ some s | _ ↦ none ]

-- A description that is undefined leaves the old one, null takes it away.
abbrev description_or : Option Value → Option String → Option String
description_or (some (str s)) old = some s
description_or (some null) old = none
description_or _ old = old

-- `servers ?? JsonNull`
abbrev servers_of : Option Value → Option Value
servers_of (some null) = none
servers_of servers = servers

-- The row that the import writes.
abbrev pub imported_project : Fields → String → UserDto → String → Project → Project
imported_project document title user now p = record p {
  name = title;
  name_normalized = to_lower_case title;
  description = description_or (info_field "description" document) p.description;
  servers = servers_of (get_field "servers" document);
  updated_by_id = user.id;
  updated_at = now;
}

abbrev pub created_endpoint : (EndpointCreate → String) → String → EndpointCreate → Endpoint
created_endpoint new_id now c = record {
  id = new_id c;
  path = c.path;
  method = c.method;
  status = draft;
  operation = c.operation;
  project_id = c.project_id;
  creator_id = c.creator_id;
  updated_by_id = c.updated_by_id;
  created_at = now;
  updated_at = now;
}

-- The errors that are passed on, and the mapped ones.
abbrev pub import_error : Fields → Caught → Exception
import_error spec (app_error (spec_validation m)) = spec_validation m
import_error spec (app_error (spec_linting n)) = spec_linting n
import_error spec (app_error (spec_circular_dependency m)) = spec_circular_dependency m
import_error spec e = handle_prisma_error e (record no_mappings {
  missing = some project_concurrency;
  unique = some (project_conflict (title_of spec));
  default = some (internal_server_error "Failed to import OpenAPI specification.");
})

module _ (client : PrismaService) where
  -- `createMany`: the rows one after the other, all or none.
  unfoldable pub create_many :
      Bool
      → (EndpointCreate → String)
      → String
      → List EndpointCreate
      → List Endpoint
      → Try (List Endpoint)
  create_many linked new_id now [] endpoints = fine endpoints
  create_many linked new_id now (c ∷ cs) endpoints =
      attempt (client.endpoint.create linked (created_endpoint new_id now c) endpoints)
      >>= create_many linked new_id now cs

  -- The updates of `toUpdate`, each by its id.
  unfoldable pub update_all :
      Bool → String → List EndpointToUpdate → List Endpoint → Try (List Endpoint)
  update_all linked now [] endpoints = fine endpoints
  update_all linked now (u ∷ us) endpoints =
      attempt (
        client.endpoint.update linked (λ e. e.id == u.id)
          (λ e. record e {
            operation = u.operation;
            updated_by_id = u.updated_by_id;
            updated_at = now;
          })
          endpoints)
      >>= (λ written. update_all linked now us written.0)

  -- `{ id: { in: toDeleteIds } }`
  abbrev pub without_ids : List String → List Endpoint → List Endpoint
  without_ids ids endpoints =
      (client.endpoint.delete_many (λ e. any (λ id. id == e.id) ids) endpoints).0

  -- The transaction.
  unfoldable pub apply_document :
      Database
      → String
      → Fields
      → String
      → UserDto
      → (EndpointCreate → String)
      → String
      → Try (Done Project)
  apply_document db project_id document last_known_updated_at user new_id now = do
    project ← or_not_found (
        client.project.find_first (is_current project_id last_known_updated_at)
          (db.grants).projects)
    -- the foreign keys of what is written: the user exists
    let linked = any (λ u. u.id == user.id) db.users
    let changes =
        reconcile (client.endpoint.find_many (λ e. e.project_id == project_id) db.endpoints)
          document user project_id now
    with_new ←
        create_many linked new_id now changes.to_create
          (without_ids changes.to_delete_ids db.endpoints)
    endpoints ← update_all linked now changes.to_update with_new
    title ←
        or_raise (title_of document)
          (error "Cannot read properties of undefined (reading 'toLowerCase')")
    written ← attempt (
        client.project.update linked (has_project_id project_id)
          (imported_project document title user now) (db.grants).projects)
    fine (record {
      db = record (with_projects db written.0) {
        endpoints = endpoints;
        notes = keep (λ n. not (any (λ id. id == n.endpoint_id) changes.to_delete_ids)) db.notes;
      };
      events = audit user "PROJECT_SPEC_IMPORTED" project_id ∷ [];
      value = written.1;
    })

  unfoldable pub import_open_api_spec :
      Parser
      → Linter
      → Database
      → String
      → Fields
      → String
      → UserDto
      → (EndpointCreate → String)
      → String
      → Result (Done Project)
  import_open_api_spec parser spectral db project_id spec last_known_updated_at user new_id now =
      try_catch
        (do
          document ← dereference parser spec
          lint spectral document
          apply_document db project_id document last_known_updated_at user new_id now)
        (import_error spec)
