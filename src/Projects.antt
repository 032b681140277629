-- ===== src/Projects.antt =====
-- projects/projects.service.ts: the creation, the update, the deletion and the document of a project;
-- `updateAccess` and `importOpenApiSpec` have modules of their own. The links of a project are not
-- modelled. The endpoints and schemas of a document come in the order of their tables.
pub mod Sharing
pub mod Import
pub mod Listing
mod Tests
use schematica_api.Access.{Grants, access_control_where_clause}
use schematica_api.Common.{
  String, ℕ, Bool, true, false, not, ◌&&◌, ◌||◌, Option, none, some, List, [], ◌∷◌, ◌++◌, any, keep,
  ◌==◌, if◌then◌else◌, to_lower_case,
}
use schematica_api.Database.{Database, PrismaService}
use schematica_api.Entities.{Project, UserProjectAccess, owner}
use schematica_api.Events.{Event, Done, audit}
use schematica_api.Exceptions.{
  Exception, Result, ok, throw, project_conflict, project_creation_failure, project_concurrency,
  project_not_found,
}
use schematica_api.Json.{Value, Fields}
use schematica_api.Prisma.Errors.{
  Try, fine, raise, Caught, app_error, attempt, or_not_found, no_mappings, handle_prisma_error,
  try_catch, ◌>>=◌, ◌>>◌,
}
use schematica_api.SpecBuilder.{build}
use schematica_api.User.{UserDto}
use schematica_api.Users.{truthy}

pub record CreateProjectDto : Type 0 where
  pub name : String
  pub description : Option String
  pub servers : Option Value

pub record UpdateProjectDto : Type 0 where
  pub name : Option String
  pub description : Option String
  pub servers : Option Value
  pub last_known_updated_at : String

abbrev pub has_project_id : String → Project → Bool
has_project_id project_id p = p.id == project_id

-- `{ id: projectId, updatedAt: new Date(lastKnownUpdatedAt) }`
abbrev pub is_current : String → String → Project → Bool
is_current project_id at p = p.id == project_id && p.updated_at == at

abbrev pub given_or {ℓ} : {A : Type ℓ} → Option A → A → A
given_or none a = a
given_or (some b) a = b

abbrev pub or_old {ℓ} : {A : Type ℓ} → Option A → Option A → Option A
or_old none old = old
or_old (some b) old = some b

abbrev pub with_projects : Database → List Project → Database
with_projects db projects = record db { grants = record (db.grants) { projects = projects } }

-- `name ? name.toLowerCase() : undefined`
abbrev normalized_or : Option String → String → String
normalized_or none old = old
normalized_or (some name) old = if name == "" then old else to_lower_case name

abbrev pub updated_project : UpdateProjectDto → UserDto → String → Project → Project
updated_project dto updater now p = record p {
  name = given_or dto.name p.name;
  name_normalized = normalized_or dto.name p.name_normalized;
  description = or_old dto.description p.description;
  servers = or_old dto.servers p.servers;
  updated_by_id = updater.id;
  updated_at = now;
}

abbrev pub new_project : CreateProjectDto → UserDto → String → String → Project
new_project dto creator new_id now = record {
  id = new_id;
  name = dto.name;
  name_normalized = to_lower_case dto.name;
  description = dto.description;
  servers = dto.servers;
  creator_id = creator.id;
  updated_by_id = creator.id;
  updated_at = now;
}

-- The rows that go with a project (`onDelete: Cascade`).
abbrev in_project_environment : Database → String → String → Bool
in_project_environment db project_id environment_id =
    any (λ v. v.id == environment_id && v.project_id == project_id) db.environments

abbrev in_project_endpoint : Database → String → String → Bool
in_project_endpoint db project_id endpoint_id =
    any (λ e. e.id == endpoint_id && e.project_id == project_id) db.endpoints

pub cascade_project : String → Database → Database
cascade_project project_id db = record db {
  grants = record (db.grants) {
    user_accesses = keep (λ a. not (a.project_id == project_id)) (db.grants).user_accesses;
    team_accesses = keep (λ a. not (a.project_id == project_id)) (db.grants).team_accesses;
    denied_users = keep (λ a. not (a.project_id == project_id)) (db.grants).denied_users;
  };
  endpoints = keep (λ e. not (e.project_id == project_id)) db.endpoints;
  notes = keep (λ n. not (in_project_endpoint db project_id n.endpoint_id)) db.notes;
  environments = keep (λ v. not (v.project_id == project_id)) db.environments;
  secrets = keep (λ s. not (in_project_environment db project_id s.environment_id)) db.secrets;
  schema_components = keep (λ c. not (c.project_id == project_id)) db.schema_components;
}

module _ (client : PrismaService) where
  unfoldable pub create :
      Database → CreateProjectDto → UserDto → String → String → Result (Done Project)
  create db dto creator new_id now =
      try_catch
        (do
          projects ← attempt (
              client.project.create (any (λ u. u.id == creator.id) db.users)
                (new_project dto creator new_id now) (db.grants).projects)
          fine (record {
            db = record db {
              grants = record (db.grants) {
                projects = projects;
                user_accesses =
                    (db.grants).user_accesses
                    ++ record { user_id = creator.id; project_id = new_id; type = owner } ∷ [];
              };
            };
            events = audit creator "PROJECT_CREATED" new_id ∷ [];
            value = new_project dto creator new_id now;
          }))
        (λ e. handle_prisma_error e (record no_mappings {
          unique = some (project_conflict (some dto.name));
          default = some (project_creation_failure dto.name);
        }))

  unfoldable pub find_one_by_id_for_user : Database → String → UserDto → Result Project
  find_one_by_id_for_user db project_id user =
      elim (client.project.find_first
        (λ p. p.id == project_id && access_control_where_clause db.grants user p)
        (db.grants).projects) [ none ↦ throw (project_not_found project_id) | some p ↦ ok p ]

  unfoldable pub update :
      Database → String → UpdateProjectDto → UserDto → String → Result (Done Project)
  update db project_id dto updater now =
      try_catch
        (do
          current ← or_not_found (
              client.project.find_first (is_current project_id dto.last_known_updated_at)
                (db.grants).projects)
          written ← attempt (
              client.project.update (any (λ u. u.id == updater.id) db.users)
                (has_project_id project_id) (updated_project dto updater now) (db.grants).projects)
          fine (record {
            db = with_projects db written.0;
            events = audit updater "PROJECT_UPDATED" project_id ∷ [];
            value = written.1;
          }))
        (λ e. handle_prisma_error e (record no_mappings {
          missing = some project_concurrency;
          unique = some (project_conflict dto.name);
        }))

  unfoldable pub delete : Database → String → UserDto → Result (Done (Unit {0}))
  delete db project_id user =
      try_catch
        (do
          deleted ← attempt (client.project.delete (has_project_id project_id) (db.grants).projects)
          fine (record {
            db = with_projects (cascade_project project_id db) deleted.0;
            events = audit user "PROJECT_DELETED" project_id ∷ [];
            value = tt;
          }))
        (λ e.
          handle_prisma_error e
            (record no_mappings { missing = some (project_not_found project_id) }))

  unfoldable pub get_open_api_spec : Database → String → UserDto → Result Fields
  get_open_api_spec db project_id user =
      elim (client.project.find_first
        (λ p. p.id == project_id && access_control_where_clause db.grants user p)
        (db.grants).projects) [
          | none ↦ throw (project_not_found project_id)
          | some p ↦ ok (
              build p (client.endpoint.find_many (λ e. e.project_id == project_id) db.endpoints) (
                client.schema_component.find_many (λ c. c.project_id == project_id)
                  db.schema_components))
        ]
