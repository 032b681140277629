-- ===== src/SchemaComponents/Tests.antt =====
-- Permissions on a small state: bob sees the project through a team, a stranger does not.
use schematica_api.Access.{can_own_project, can_view_project}
use schematica_api.Access.Rules.{MayOwn, MayView, can_own_project_iff, can_view_project_iff}
use schematica_api.Common.{true, false, ◌≡◌, none, some, []}
use schematica_api.Database.{memory_client, memory_client-IsPrisma}
use schematica_api.Entities.{project_clash}
use schematica_api.Exceptions.{throw, project_not_found}
use schematica_api.Json.{null}
use schematica_api.Prisma.{in_memory, in_memory-IsDelegate}
use schematica_api.Samples.{bob, db, grants}
use schematica_api.SchemaComponents.{
  CreateSchemaComponentDto, UpdateSchemaComponentDto, create, update, remove,
}
use schematica_api.SchemaComponents.Permissions.{writes_need_owner}
use schematica_api.User.{UserDto, guest}

abbrev stranger : UserDto
stranger = record { id = "u4"; username = "mallory"; role = guest; teams = some [] }

bob_may_not_own : ¬ MayOwn grants bob "p1"
unfolding can_own_project
bob_may_not_own m =
    let h : false ≡ true =
      (can_own_project_iff grants (in_memory project_clash) bob "p1"
          (in_memory-IsDelegate project_clash)).1
        m in
    cc

stranger_may_not_view : ¬ MayView grants stranger "p1"
unfolding can_view_project
stranger_may_not_view m =
    let h : false ≡ true =
      (can_view_project_iff grants (in_memory project_clash) stranger "p1"
          (in_memory-IsDelegate project_clash)).1
        m in
    cc

abbrev new : CreateSchemaComponentDto
new = record { name = "Item"; description = none; schema = null }

abbrev dto : UpdateSchemaComponentDto
dto = record { name = some "Thing"; description = none; schema = none }

writes_need_owner_example :
    (create memory_client db "p1" new bob "c1" ≡ throw (project_not_found "p1"))
    × (update memory_client db "p1" "Item" dto bob ≡ throw (project_not_found "p1"))
    × (remove memory_client db "p1" "Item" bob ≡ throw (project_not_found "p1"))
writes_need_owner_example =
    writes_need_owner memory_client memory_client-IsPrisma db "p1" "Item" "c1" bob new dto
      bob_may_not_own
