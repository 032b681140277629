-- ===== src/SchemaComponents.antt =====
-- projects/schema-components/schema-components.service.ts. The answers of `findAllForProject` come in
-- the order of the table.
pub mod Permissions
mod Tests
use schematica_api.Access.{can_own_project, can_view_project}
use schematica_api.Common.{
  String, Bool, true, false, ◌&&◌, Option, none, some, List, [], ◌∷◌, any, ◌==◌, if◌then◌else◌,
  template,
}
use schematica_api.Database.{Database, PrismaService}
use schematica_api.Entities.{SchemaComponent}
use schematica_api.Events.{Event, Done, audit}
use schematica_api.Exceptions
use schematica_api.Exceptions.{Exception, Result, ok, throw, conflict, not_found, project_not_found}
use schematica_api.Guards.{require}
use schematica_api.Json.{Value}
use schematica_api.Prisma.Errors.{
  Try, fine, attempt, or_not_found, no_mappings, handle_prisma_error, try_catch, ◌>>=◌,
}
use schematica_api.Projects.{given_or, or_old}
use schematica_api.User.{UserDto}

pub record CreateSchemaComponentDto : Type 0 where
  pub name : String
  pub description : Option String
  pub schema : Value

pub record UpdateSchemaComponentDto : Type 0 where
  pub name : Option String
  pub description : Option String
  pub schema : Option Value

pub data RequiredAccess : Type 0 where
  as_viewer as_owner : RequiredAccess

-- `{ projectId_name: { projectId, name } }`
abbrev pub is_component : String → String → SchemaComponent → Bool
is_component project_id name c = c.project_id == project_id && c.name == name

abbrev pub name_taken : String → Exception
name_taken name = conflict (
    template
      ("A schema component with the name '" ∷ name ∷ "' already exists in this project." ∷ []))

abbrev pub no_component : String → Exception
no_component name =
    not_found
      (template ("Schema component with name '" ∷ name ∷ "' not found in this project." ∷ []))

abbrev pub updated_component :
    UpdateSchemaComponentDto → UserDto → SchemaComponent → SchemaComponent
updated_component dto actor c = record c {
  name = given_or dto.name c.name;
  description = or_old dto.description c.description;
  schema = given_or dto.schema c.schema;
  updated_by_id = actor.id;
}

module _ (client : PrismaService) where
  unfoldable pub verify_project_access :
      Database → String → UserDto → RequiredAccess → Result (Unit {0})
  verify_project_access db project_id actor as_owner =
      require (can_own_project db.grants client.project actor project_id)
        (project_not_found project_id)
  verify_project_access db project_id actor as_viewer =
      require (can_view_project db.grants client.project actor project_id)
        (project_not_found project_id)

  abbrev pub new_component : String → CreateSchemaComponentDto → UserDto → String → SchemaComponent
  new_component project_id dto actor new_id = record {
    id = new_id;
    name = dto.name;
    description = dto.description;
    schema = dto.schema;
    project_id = project_id;
    creator_id = actor.id;
    updated_by_id = actor.id;
  }

  unfoldable pub create :
      Database
      → String
      → CreateSchemaComponentDto
      → UserDto
      → String
      → Result (Done SchemaComponent)
  create db project_id dto actor new_id =
      Exceptions.◌>>◌ (verify_project_access db project_id actor as_owner) (
        try_catch
          (do
            components ← attempt (
                client.schema_component.create
                  (any (λ p. p.id == project_id) (db.grants).projects
                    && any (λ u. u.id == actor.id) db.users)
                  (new_component project_id dto actor new_id) db.schema_components)
            fine (record {
              db = record db { schema_components = components };
              events = audit actor "SCHEMA_COMPONENT_CREATED" new_id ∷ [];
              value = new_component project_id dto actor new_id;
            }))
          (λ e. handle_prisma_error e (record no_mappings { unique = some (name_taken dto.name) })))

  unfoldable pub find_all_for_project : Database → String → UserDto → Result (List SchemaComponent)
  find_all_for_project db project_id actor =
      Exceptions.◌>>◌ (verify_project_access db project_id actor as_viewer) (
        ok (
          client.schema_component.find_many (λ c. c.project_id == project_id) db.schema_components))

  unfoldable pub find_one_by_name : Database → String → String → UserDto → Result SchemaComponent
  find_one_by_name db project_id name actor =
      Exceptions.◌>>◌ (verify_project_access db project_id actor as_viewer) (
        try_catch
          (or_not_found (
            client.schema_component.find_first (is_component project_id name) db.schema_components))
          (λ e. handle_prisma_error e (record no_mappings { missing = some (no_component name) })))

  unfoldable pub update :
      Database
      → String
      → String
      → UpdateSchemaComponentDto
      → UserDto
      → Result (Done SchemaComponent)
  update db project_id name dto actor =
      Exceptions.◌>>◌ (verify_project_access db project_id actor as_owner) (
        try_catch
          (do
            written ← attempt (
                client.schema_component.update (any (λ u. u.id == actor.id) db.users)
                  (is_component project_id name) (updated_component dto actor) db.schema_components)
            fine (record {
              db = record db { schema_components = written.0 };
              events = audit actor "SCHEMA_COMPONENT_UPDATED" (written.1).id ∷ [];
              value = written.1;
            }))
          (λ e. handle_prisma_error e (record no_mappings {
            missing = some (no_component name);
            unique = some (name_taken (given_or dto.name name));
          })))

  unfoldable pub remove : Database → String → String → UserDto → Result (Done (Unit {0}))
  remove db project_id name actor =
      Exceptions.◌>>◌ (verify_project_access db project_id actor as_owner) (
        try_catch
          (do
            deleted ←
                attempt (
                  client.schema_component.delete (is_component project_id name)
                    db.schema_components)
            fine (record {
              db = record db { schema_components = deleted.0 };
              events = audit actor "SCHEMA_COMPONENT_DELETED" (deleted.1).id ∷ [];
              value = tt;
            }))
          (λ e. handle_prisma_error e (record no_mappings { missing = some (no_component name) })))
