-- ===== src/Guards/Rules.antt =====
-- What the guards let pass.
use schematica_api.Access.{can_own_project, can_view_project}
use schematica_api.Access.Rules.{MayOwn, MayView, can_own_project_iff, can_view_project_iff}
use schematica_api.Common.{
  String, Bool, true, false, ◌&&◌, ◌≡◌, ◌≢◌, ◌↔◌, inl, inr, eq_iff, arith, Option, some, In, any,
  any-In_complete, ◌==◌, if◌then◌else◌, Integer, is_nat, parse_int, Bool-cases,
}
use schematica_api.Database.{Database, PrismaService, IsPrisma, memory_client, for_every_client}
use schematica_api.Entities.{Environment, Secret}
use schematica_api.Exceptions.{ok}
use schematica_api.Guards.{
  project_owner_guard, note_permission_guard, get_project_id_from_request, resource_relations_guard,
  ResourceRelationsConfig, environment_model, count_related,
}
use schematica_api.Prisma.Tables.{length-keep_some}
use schematica_api.User.{UserDto, admin, role_eq}

-- The owner guard lets a request of a user pass exactly if the user may own the project that the
-- route names.
pub project_owner_guard_iff :
    (client : PrismaService)
    → IsPrisma client
    → (db : Database) (user : UserDto) (project_id : String) → (project_id == "") ≡ false
    → (project_owner_guard client db (some user) (some project_id) ≡ ok true)
      ↔ MayOwn db.grants user project_id
unfolding project_owner_guard
project_owner_guard_iff client laws db user project_id named =
    let rule = can_own_project_iff db.grants client.project user project_id laws.project in
    elim (Bool-cases (can_own_project db.grants client.project user project_id)) [
      | inl allowed ↦ (λ h. rule.0 allowed, λ m. ground (arith, named, allowed))
      | inr refused ↦
          (λ h. ground (arith, named, refused, h), λ m. absurd (clash refused (rule.1 m)))
    ]
  where
    clash : {b : Bool} → b ≡ false → b ≡ true → ⊥
    clash f t = cc

-- Behind the note guard, a user who is no admin reads the notes of a project exactly if they may view
-- it, and writes them exactly if they may own it, where the request leads to a project.
pub note_permission_guard_iff :
    (client : PrismaService)
    → IsPrisma client
    → (db : Database) (user : UserDto) (endpoint_id note_id : Option String) (is_read : Bool)
      (project_id : String)
    → role_eq user.role admin ≡ false
    → get_project_id_from_request client db endpoint_id note_id ≡ ok project_id
    → (note_permission_guard client db user endpoint_id note_id is_read ≡ ok true)
      ↔ (if is_read then MayView db.grants user project_id else MayOwn db.grants user project_id)
unfolding note_permission_guard
note_permission_guard_iff client laws db user endpoint_id note_id true project_id plain leads =
    let rule = can_view_project_iff db.grants client.project user project_id laws.project in
    elim (Bool-cases (can_view_project db.grants client.project user project_id)) [
      | inl allowed ↦ (λ h. rule.0 allowed, λ m. ground (arith, plain, leads, allowed))
      | inr refused ↦
          (λ h. ground (arith, plain, leads, refused, h), λ m. absurd (clash refused (rule.1 m)))
    ]
  where
    clash : {b : Bool} → b ≡ false → b ≡ true → ⊥
    clash f t = cc
note_permission_guard_iff client laws db user endpoint_id note_id false project_id plain leads =
    let rule = can_own_project_iff db.grants client.project user project_id laws.project in
    elim (Bool-cases (can_own_project db.grants client.project user project_id)) [
      | inl allowed ↦ (λ h. rule.0 allowed, λ m. ground (arith, plain, leads, allowed))
      | inr refused ↦
          (λ h. ground (arith, plain, leads, refused, h), λ m. absurd (clash refused (rule.1 m)))
    ]
  where
    clash : {b : Bool} → b ≡ false → b ≡ true → ⊥
    clash f t = cc

-- How the controller configures the guard for the update and the deletion of a secret.
abbrev pub secret_relation : ResourceRelationsConfig
secret_relation = record {
  parent_model = environment_model;
  parent_param = "environmentId";
  child_model_name = some "Secret";
  child_param = "secretId";
  child_param_is_int = true;
}

resource_relations_guard_related :
    (db : Database) (environment : Environment) (secret : Secret) (param : String) (i : Integer)
    → In environment db.environments
    → In secret db.secrets
    → secret.environment_id ≡ environment.id
    → (environment.id == "") ≡ false
    → (param == "") ≡ false
    → parse_int param ≡ some i
    → is_nat i secret.id ≡ true
    → resource_relations_guard memory_client db
        (some secret_relation)
        (some environment.id)
        (some param)
      ≡ ok true
unfolding resource_relations_guard count_related
resource_relations_guard_related db environment secret param i environment_in secret_in same named
      given parsed is_id =
    let child : any (λ s. s.environment_id == environment.id && is_nat i s.id) db.secrets ≡ true =
      any-In_complete (λ s. s.environment_id == environment.id && is_nat i s.id) secret db.secrets
        secret_in (ground (arith, is_id, same, eq_iff secret.environment_id environment.id)) in
    let parent : any
          (λ v.
            v.id == environment.id
            && any (λ s. s.environment_id == v.id && is_nat i s.id) db.secrets)
          db.environments
        ≡ true =
      any-In_complete
        (λ v.
          v.id == environment.id && any (λ s. s.environment_id == v.id && is_nat i s.id) db.secrets)
        environment db.environments environment_in
        (ground (arith, child, eq_iff environment.id environment.id)) in
    rw (named, resource_relations_guard, given, parsed)
      (ground (
        arith,
        length-keep_some
            (λ v.
              v.id == environment.id
              && any (λ s. s.environment_id == v.id && is_nat i s.id) db.secrets)
            db.environments parent,
      ))

-- The two guards before the update and the deletion of a secret let an owner of any project pass to
-- the secrets of every environment, also of one that belongs to another project: neither relates the
-- environment of the route to the project of the route.
pub secret_guards_cross_project :
    (client : PrismaService)
    → IsPrisma client
    → (db : Database) (user : UserDto) (project_id param : String) (i : Integer)
      (environment : Environment) (secret : Secret)
    → (project_id == "") ≡ false
    → MayOwn db.grants user project_id
    → In environment db.environments
    → environment.project_id ≢ project_id
    → In secret db.secrets
    → secret.environment_id ≡ environment.id
    → (environment.id == "") ≡ false
    → (param == "") ≡ false
    → parse_int param ≡ some i
    → is_nat i secret.id ≡ true
    → (project_owner_guard client db (some user) (some project_id) ≡ ok true)
      × (resource_relations_guard client db
            (some secret_relation)
            (some environment.id)
            (some param)
          ≡ ok true)
secret_guards_cross_project client laws db user project_id param i environment secret named may
      environment_in foreign secret_in same env_named given parsed is_id =
    (
      (project_owner_guard_iff client laws db user project_id named).1 may,
      for_every_client
          (λ c.
            resource_relations_guard c db (some secret_relation) (some environment.id) (some param)
            ≡ ok true)
          client laws
          (resource_relations_guard_related db environment secret param i environment_in secret_in
            same env_named given parsed is_id),
    )
