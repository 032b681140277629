-- ===== src/Routes/Foreign.antt =====
-- The routes for the secrets do not ask whether the environment belongs to the project of the route.
use schematica_api.Access.Rules.{MayOwn}
use schematica_api.Common.{
  String, ℕ, Bool, true, false, not, ◌≡◌, ◌≢◌, inl, inr, refl, arith, eq_iff, some, Option, List,
  [], ◌∷◌, length, any-In_complete, In, keep, nat_eq, ◌==◌, Integer, is_nat, parse_int, print_nat,
  Bool-cases,
}
use schematica_api.Database.{
  Database, PrismaService, IsPrisma, memory_client, memory_client-IsPrisma, for_every_client,
}
use schematica_api.Encryption.{Cipher}
use schematica_api.Entities.{Environment, Secret}
use schematica_api.Events.{Done, audit}
use schematica_api.Exceptions.{ok}
use schematica_api.Guards.{resource_relations_guard}
use schematica_api.Guards.Rules.{secret_guards_cross_project}
use schematica_api.Prisma.Tables.{length-keep_some}
use schematica_api.Routes.{owns_related, parsed_id, delete_secret, secret_of_environment}
use schematica_api.Secrets
use schematica_api.Secrets.{is_secret}
use schematica_api.User.{UserDto}

keep-removed : {A : Type 0} (p : A → Bool) (t : List A) → keep p (keep (λ r. not (p r)) t) ≡ []
keep-removed p [] = refl
keep-removed p (x ∷ t) = elim (Bool-cases (p x)) [
  | inl fits ↦ rw fits (keep-removed p t)
  | inr other ↦ rw other (rw other (keep-removed p t))
]

-- The request succeeds, and the secret is gone.
abbrev pub IsDeletedBy :
    PrismaService
    → Cipher
    → (String → Option ℕ)
    → Database
    → UserDto
    → String
    → String
    → Secret
    → Type 0
IsDeletedBy client cipher pipe db user project_id param secret =
    (d : Done (Unit {0})) × (delete_secret client cipher pipe db user project_id
        secret.environment_id param
      ≡ ok d)
    × (keep (is_secret secret.environment_id secret.id) (d.db).secrets ≡ [])

module _ (cipher : Cipher) (pipe : String → Option ℕ) (db : Database) (user : UserDto)
    (project_id param : String) (i : Integer) (environment : Environment) (secret : Secret)
    (named : (project_id == "") ≡ false) (may : MayOwn db.grants user project_id)
    (there : In environment db.environments) (foreign : environment.project_id ≢ project_id)
    (kept : In secret db.secrets) (inside : secret.environment_id ≡ environment.id)
    (env_named : (environment.id == "") ≡ false) (given : (param == "") ≡ false)
    (parsed : parse_int param ≡ some i) (is_id : is_nat i secret.id ≡ true)
    (piped : pipe param ≡ some secret.id) where
  IsDeletedBy-in_memory : IsDeletedBy memory_client cipher pipe db user project_id param secret
  unfolding delete_secret owns_related parsed_id Secrets.remove
  IsDeletedBy-in_memory =
      let (owned, related) =
        secret_guards_cross_project memory_client memory_client-IsPrisma db user project_id param i
          environment secret named may there foreign kept inside env_named given parsed is_id in
      let hit : is_secret secret.environment_id secret.id secret ≡ true =
        ground (arith, eq_iff secret.environment_id secret.environment_id) in
      let exists =
        any-In_complete (is_secret secret.environment_id secret.id) secret db.secrets kept hit in
      let many = length-keep_some (is_secret secret.environment_id secret.id) db.secrets exists in
      let counted : nat_eq (length (keep (is_secret secret.environment_id secret.id) db.secrets)) 0
          ≡ false =
        ground arith in
      let gone = keep-removed (is_secret secret.environment_id secret.id) db.secrets in
      let beside : resource_relations_guard memory_client db (some secret_of_environment)
            (some secret.environment_id) (some param)
          ≡ ok true =
        rw inside related in
      (
        record {
          db = record db {
            secrets = keep (λ s. not (is_secret secret.environment_id secret.id s)) db.secrets;
          };
          events = audit user "SECRET_DELETED" (print_nat secret.id) ∷ [];
          value = tt;
        },
        rw (delete_secret, owns_related, owned, beside, parsed_id, piped, Secrets.remove, counted)
            refl,
        gone,
      )

-- Whoever may own some project deletes, through the route of that project, any secret of any
-- environment that belongs to another project: the request succeeds, and the secret is gone.
pub delete_secret_cross_project :
    (client : PrismaService)
    → IsPrisma client
    → (cipher : Cipher) (pipe : String → Option ℕ) (db : Database) (user : UserDto)
      (project_id param : String) (i : Integer) (environment : Environment) (secret : Secret)
    → (project_id == "") ≡ false
    → MayOwn db.grants user project_id
    → In environment db.environments
    → environment.project_id ≢ project_id
    → In secret db.secrets
    → secret.environment_id ≡ environment.id
    → (environment.id == "") ≡ false
    → (param == "") ≡ false
    → parse_int param ≡ some i
    → is_nat i secret.id ≡ true
    → pipe param ≡ some secret.id
    → IsDeletedBy client cipher pipe db user project_id param secret
delete_secret_cross_project client laws cipher pipe db user project_id param i environment secret
      named may there foreign kept inside env_named given parsed is_id piped =
    for_every_client (λ c. IsDeletedBy c cipher pipe db user project_id param secret) client laws
      (IsDeletedBy-in_memory cipher pipe db user project_id param i environment secret named may
        there foreign kept inside env_named given parsed is_id piped)
