-- ===== src/Environments.antt =====
-- projects/environments/environments.service.ts. The answers of `findAllForProject` come in the
-- order of the table. The secrets go with their environment (`onDelete: Cascade`).
pub mod Isolation
mod Tests
use schematica_api.Common.{
  String, ℕ, Bool, true, false, not, ◌&&◌, Option, none, some, List, [], ◌∷◌, any, keep, ◌==◌,
  nat_eq, if◌then◌else◌, template,
}
use schematica_api.Database.{Database, PrismaService}
use schematica_api.Entities.{Environment}
use schematica_api.Events.{Event, Done, audit}
use schematica_api.Exceptions.{Exception, Result, conflict, not_found, internal_server_error}
use schematica_api.Prisma.Errors.{
  Try, fine, raise, Caught, app_error, attempt, or_not_found, no_mappings, handle_prisma_error,
  try_catch, ◌>>=◌, ◌>>◌,
}
use schematica_api.Projects.{given_or, or_old}
use schematica_api.Secrets.{not_found_or}
use schematica_api.User.{UserDto}

pub record CreateEnvironmentDto : Type 0 where
  pub name : String
  pub description : Option String

pub record UpdateEnvironmentDto : Type 0 where
  pub name : Option String
  pub description : Option String

-- `{ id: environmentId, projectId: projectId }`
abbrev pub is_environment : String → String → Environment → Bool
is_environment project_id environment_id v = v.id == environment_id && v.project_id == project_id

abbrev pub in_project : String → Environment → Bool
in_project project_id v = v.project_id == project_id

abbrev pub updated_environment : UpdateEnvironmentDto → Environment → Environment
updated_environment dto v = record v {
  name = given_or dto.name v.name;
  description = or_old dto.description v.description;
}

abbrev pub no_environment : String → Exception
no_environment environment_id =
    not_found
      (template ("Environment with ID '" ∷ environment_id ∷ "' not found in this project." ∷ []))

-- NotFoundException is passed on, the rest mapped.
abbrev pub update_error : Caught → Exception
update_error (app_error (not_found m)) = not_found m
update_error e = handle_prisma_error e (record no_mappings {
  unique = some (conflict "An environment with this name already exists in this project.");
})

module _ (client : PrismaService) where
  abbrev pub new_environment : String → CreateEnvironmentDto → String → Environment
  new_environment project_id dto new_id = record {
    id = new_id;
    name = dto.name;
    description = dto.description;
    project_id = project_id;
  }

  unfoldable pub create :
      Database → String → CreateEnvironmentDto → UserDto → String → Result (Done Environment)
  create db project_id dto actor new_id =
      try_catch
        (do
          environments ← attempt (
              client.environment.create (any (λ p. p.id == project_id) (db.grants).projects)
                (new_environment project_id dto new_id) db.environments)
          fine (record {
            db = record db { environments = environments };
            events = audit actor "ENVIRONMENT_CREATED" new_id ∷ [];
            value = new_environment project_id dto new_id;
          }))
        (λ e. handle_prisma_error e (record no_mappings {
          unique = some (
              conflict (
                template (
                  "An environment with the name '" ∷ dto.name ∷ "' already exists in this project."
                  ∷ [])));
        }))

  unfoldable pub find_all_for_project : Database → String → List Environment
  find_all_for_project db project_id =
      client.environment.find_many (in_project project_id) db.environments

  unfoldable pub update :
      Database → String → String → UpdateEnvironmentDto → UserDto → Result (Done Environment)
  update db project_id environment_id dto actor =
      try_catch
        (do
          result ← attempt (
              client.environment.update_many true (is_environment project_id environment_id)
                (updated_environment dto) db.environments)
          if nat_eq result.1 0 then raise (app_error (no_environment environment_id)) else fine tt
          updated ←
              or_not_found (client.environment.find_first (λ v. v.id == environment_id) result.0)
          fine (record {
            db = record db { environments = result.0 };
            events = audit actor "ENVIRONMENT_UPDATED" updated.id ∷ [];
            value = updated;
          }))
        update_error

  unfoldable pub remove : Database → String → String → UserDto → Result (Done (Unit {0}))
  remove db project_id environment_id actor =
      let result =
        client.environment.delete_many (is_environment project_id environment_id) db.environments in
      try_catch
        (do
          if nat_eq result.1 0 then raise (app_error (no_environment environment_id)) else fine tt
          fine (record {
            db = record db {
              environments = result.0;
              secrets = keep (λ s. not (s.environment_id == environment_id)) db.secrets;
            };
            events = audit actor "ENVIRONMENT_DELETED" environment_id ∷ [];
            value = tt;
          }))
        (not_found_or "Failed to delete environment.")
