-- ===== src/Environments/Isolation.antt =====
-- The operations on an environment of a project leave the environments of other projects alone.
use schematica_api.Common.{
  String, ◌≡◌, ◌≢◌, inl, inr, refl, eq_iff, arith, List, [], ◌∷◌, find, keep, length, ◌==◌, nat_eq,
  Bool-cases, Option-cases,
}
use schematica_api.Database.{Database, PrismaService, IsPrisma, memory_client, for_every_client}
use schematica_api.Entities.{Environment, environment_clash}
use schematica_api.Environments.{
  UpdateEnvironmentDto, is_environment, in_project, updated_environment, update,
}
use schematica_api.Events.{Done, audit}
use schematica_api.Exceptions.{ok}
use schematica_api.Prisma.{patch_all, has_clash}
use schematica_api.User.{UserDto}

keep-patch_other :
    (project_id other environment_id : String) (dto : UpdateEnvironmentDto) (t : List Environment)
    → other ≢ project_id
    → keep
        (in_project other)
        (patch_all (is_environment project_id environment_id) (updated_environment dto) t)
      ≡ keep (in_project other) t
keep-patch_other project_id other environment_id dto [] apart = refl
keep-patch_other project_id other environment_id dto (v ∷ t) apart =
    elim (Bool-cases (is_environment project_id environment_id v)) [
      | inl hit ↦ ground (
        arith,
        hit,
        keep-patch_other project_id other environment_id dto t apart,
        eq_iff v.project_id project_id,
        eq_iff v.project_id other,
      )
      | inr miss ↦
          ground (arith, miss, keep-patch_other project_id other environment_id dto t apart)
    ]

module _ (db : Database) (project_id other environment_id : String) (dto : UpdateEnvironmentDto)
    (actor : UserDto) (apart : other ≢ project_id) where
  abbrev patched : List Environment
  patched =
      patch_all (is_environment project_id environment_id) (updated_environment dto) db.environments

  abbrev outcome : Environment → Done Environment
  outcome v = record {
    db = record db { environments = patched };
    events = audit actor "ENVIRONMENT_UPDATED" v.id ∷ [];
    value = v;
  }

  updated_in_memory :
      (d : Done Environment)
      → update memory_client db project_id environment_id dto actor ≡ ok d
      → keep (in_project other) (d.db).environments ≡ keep (in_project other) db.environments
  unfolding update
  updated_in_memory d h = elim (Bool-cases (has_clash environment_clash patched)) [
    | inl clash ↦ ground (arith, clash)
    | inr clear ↦
        elim (Bool-cases
          (nat_eq (length (keep (is_environment project_id environment_id) db.environments)) 0)) [
            | inl none_there ↦ ground (arith, clear, none_there)
            | inr there ↦ elim (Option-cases (find (λ v. v.id == environment_id) patched)) [
              | inl f ↦ ground (arith, clear, there, f)
              | inr (v, f) ↦
                  let same : ok (outcome v) ≡ ok d = ground (arith, clear, there, f, h) in
                  let same_d : outcome v ≡ d = cc in
                  rw (← same_d)
                    (keep-patch_other project_id other environment_id dto db.environments apart)
            ]
          ]
  ]

-- An update that succeeds changes no environment of another project, whatever the id.
pub update_isolated :
    (client : PrismaService)
    → IsPrisma client
    → (db : Database) (project_id other environment_id : String) (dto : UpdateEnvironmentDto)
      (actor : UserDto) (d : Done Environment)
    → other ≢ project_id
    → update client db project_id environment_id dto actor ≡ ok d
    → keep (in_project other) (d.db).environments ≡ keep (in_project other) db.environments
update_isolated client laws db project_id other environment_id dto actor d apart =
    for_every_client
      (λ c.
        update c db project_id environment_id dto actor ≡ ok d
        → keep (in_project other) (d.db).environments ≡ keep (in_project other) db.environments)
      client laws (updated_in_memory db project_id other environment_id dto actor apart d)
