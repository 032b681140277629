-- ===== src/SchemaComponents/Permissions.antt =====
-- Who reads and changes the schemas of a project.
use schematica_api.Access.{can_own_project, can_view_project}
use schematica_api.Access.Rules.{MayOwn, MayView, can_own_project_iff, can_view_project_iff}
use schematica_api.Common.{String, ◌≡◌, ◌⊎◌, inl, inr, arith, Bool-cases}
use schematica_api.Database.{Database, PrismaService, IsPrisma}
use schematica_api.Exceptions.{ok, throw, project_not_found}
use schematica_api.SchemaComponents.{
  CreateSchemaComponentDto, UpdateSchemaComponentDto, create, update, remove, find_all_for_project,
  find_one_by_name, verify_project_access, as_owner, as_viewer,
}
use schematica_api.User.{UserDto}

module _ (client : PrismaService) (laws : IsPrisma client) (db : Database)
    (project_id name : String) (actor : UserDto) where
  owner_verified :
      ((verify_project_access client db project_id actor as_owner ≡ ok tt)
        × MayOwn db.grants actor project_id)
      ⊎ (verify_project_access client db project_id actor as_owner
          ≡ throw (project_not_found project_id))
  unfolding verify_project_access
  owner_verified = elim (Bool-cases (can_own_project db.grants client.project actor project_id)) [
    | inl may ↦ inl (
      ground (arith, may),
      (can_own_project_iff db.grants client.project actor project_id laws.project).0 may,
    )
    | inr may_not ↦ inr (ground (arith, may_not))
  ]

  viewer_verified :
      ((verify_project_access client db project_id actor as_viewer ≡ ok tt)
        × MayView db.grants actor project_id)
      ⊎ (verify_project_access client db project_id actor as_viewer
          ≡ throw (project_not_found project_id))
  unfolding verify_project_access
  viewer_verified = elim (Bool-cases (can_view_project db.grants client.project actor project_id)) [
    | inl may ↦ inl (
      ground (arith, may),
      (can_view_project_iff db.grants client.project actor project_id laws.project).0 may,
    )
    | inr may_not ↦ inr (ground (arith, may_not))
  ]

-- Whoever may not own the project changes nothing of its schemas and is told that there is no such
-- project, by each of the three operations that change a schema.
pub writes_need_owner :
    (client : PrismaService)
    → IsPrisma client
    → (db : Database) (project_id name new_id : String) (actor : UserDto)
      (new : CreateSchemaComponentDto) (dto : UpdateSchemaComponentDto)
    → ¬ MayOwn db.grants actor project_id
    → (create client db project_id new actor new_id ≡ throw (project_not_found project_id))
      × (update client db project_id name dto actor ≡ throw (project_not_found project_id))
      × (remove client db project_id name actor ≡ throw (project_not_found project_id))
unfolding create update remove
writes_need_owner client laws db project_id name new_id actor new dto may_not =
    elim (owner_verified client laws db project_id name actor) [
      | inl (v, may) ↦ absurd (may_not may)
      | inr v ↦ (rw v, rw v, rw v)
    ]

-- Whoever may not view the project reads none of its schemas and is told that there is no such
-- project.
pub reads_need_viewer :
    (client : PrismaService)
    → IsPrisma client
    → (db : Database) (project_id name : String) (actor : UserDto)
    → ¬ MayView db.grants actor project_id
    → (find_all_for_project client db project_id actor ≡ throw (project_not_found project_id))
      × (find_one_by_name client db project_id name actor ≡ throw (project_not_found project_id))
unfolding find_all_for_project find_one_by_name
reads_need_viewer client laws db project_id name actor may_not =
    elim (viewer_verified client laws db project_id name actor) [
      | inl (v, may) ↦ absurd (may_not may)
      | inr v ↦ (rw v, rw v)
    ]
