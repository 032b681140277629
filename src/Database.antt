-- ===== src/Database.antt =====
-- The state of the program in the database: its tables, the client's delegates for them with their
-- laws, and a client that keeps everything in memory.
use schematica_api.Access.{Grants}
use schematica_api.Common.{◌≡◌, sym, subst, List}
use schematica_api.Entities.{
  User, Team, TeamMembership, Project, Endpoint, Note, Environment, Secret, AuthProvider,
  SchemaComponent, AuditLog, Changelog, Notification, UserNotificationStatus, audit_log_clash,
  changelog_clash, notification_clash, notification_status_clash, user_clash, team_clash,
  project_clash, endpoint_clash, note_clash, environment_clash, secret_clash, auth_provider_clash,
  schema_component_clash,
}
use schematica_api.Prisma.{Delegate, IsDelegate, IsDelegate-eq, in_memory, in_memory-IsDelegate}

pub record Database : Type 0 where
  pub grants : Grants
  pub open grants use *
  pub users : List User
  pub teams : List Team
  pub team_memberships : List TeamMembership
  pub endpoints : List Endpoint
  pub notes : List Note
  pub environments : List Environment
  pub secrets : List Secret
  pub auth_providers : List AuthProvider
  pub schema_components : List SchemaComponent
  pub audit_logs : List AuditLog
  pub changelogs : List Changelog
  pub notifications : List Notification
  pub notification_statuses : List UserNotificationStatus

pub record PrismaService : Type 0 where
  pub user : Delegate User
  pub team : Delegate Team
  pub project : Delegate Project
  pub endpoint : Delegate Endpoint
  pub note : Delegate Note
  pub environment : Delegate Environment
  pub secret : Delegate Secret
  pub auth_provider : Delegate AuthProvider
  pub schema_component : Delegate SchemaComponent
  pub audit_log : Delegate AuditLog
  pub changelog : Delegate Changelog
  pub notification : Delegate Notification
  pub notification_status : Delegate UserNotificationStatus

pub record IsPrisma (c : PrismaService) : Type 0 where
  pub user : IsDelegate user_clash c.user
  pub team : IsDelegate team_clash c.team
  pub project : IsDelegate project_clash c.project
  pub endpoint : IsDelegate endpoint_clash c.endpoint
  pub note : IsDelegate note_clash c.note
  pub environment : IsDelegate environment_clash c.environment
  pub secret : IsDelegate secret_clash c.secret
  pub auth_provider : IsDelegate auth_provider_clash c.auth_provider
  pub schema_component : IsDelegate schema_component_clash c.schema_component
  pub audit_log : IsDelegate audit_log_clash c.audit_log
  pub changelog : IsDelegate changelog_clash c.changelog
  pub notification : IsDelegate notification_clash c.notification
  pub notification_status : IsDelegate notification_status_clash c.notification_status

abbrev pub memory_client : PrismaService
memory_client = record {
  user = in_memory user_clash;
  team = in_memory team_clash;
  project = in_memory project_clash;
  endpoint = in_memory endpoint_clash;
  note = in_memory note_clash;
  environment = in_memory environment_clash;
  secret = in_memory secret_clash;
  auth_provider = in_memory auth_provider_clash;
  schema_component = in_memory schema_component_clash;
  audit_log = in_memory audit_log_clash;
  changelog = in_memory changelog_clash;
  notification = in_memory notification_clash;
  notification_status = in_memory notification_status_clash;
}

pub memory_client-IsPrisma : IsPrisma memory_client
memory_client-IsPrisma = record {
  user = in_memory-IsDelegate user_clash;
  team = in_memory-IsDelegate team_clash;
  project = in_memory-IsDelegate project_clash;
  endpoint = in_memory-IsDelegate endpoint_clash;
  note = in_memory-IsDelegate note_clash;
  environment = in_memory-IsDelegate environment_clash;
  secret = in_memory-IsDelegate secret_clash;
  auth_provider = in_memory-IsDelegate auth_provider_clash;
  schema_component = in_memory-IsDelegate schema_component_clash;
  audit_log = in_memory-IsDelegate audit_log_clash;
  changelog = in_memory-IsDelegate changelog_clash;
  notification = in_memory-IsDelegate notification_clash;
  notification_status = in_memory-IsDelegate notification_status_clash;
}

-- The laws determine the client: what holds of the one in memory holds of every client.
pub IsPrisma-eq : (c : PrismaService) → IsPrisma c → memory_client ≡ c
IsPrisma-eq c h = sym (λ i. record {
  user = IsDelegate-eq user_clash c.user h.user i;
  team = IsDelegate-eq team_clash c.team h.team i;
  project = IsDelegate-eq project_clash c.project h.project i;
  endpoint = IsDelegate-eq endpoint_clash c.endpoint h.endpoint i;
  note = IsDelegate-eq note_clash c.note h.note i;
  environment = IsDelegate-eq environment_clash c.environment h.environment i;
  secret = IsDelegate-eq secret_clash c.secret h.secret i;
  auth_provider = IsDelegate-eq auth_provider_clash c.auth_provider h.auth_provider i;
  schema_component = IsDelegate-eq schema_component_clash c.schema_component h.schema_component i;
  audit_log = IsDelegate-eq audit_log_clash c.audit_log h.audit_log i;
  changelog = IsDelegate-eq changelog_clash c.changelog h.changelog i;
  notification = IsDelegate-eq notification_clash c.notification h.notification i;
  notification_status =
      IsDelegate-eq notification_status_clash c.notification_status h.notification_status i;
})

pub for_every_client {ℓ} :
    (P : PrismaService → Type ℓ) (c : PrismaService) → IsPrisma c → P memory_client → P c
for_every_client P c h = subst P (IsPrisma-eq c h)
