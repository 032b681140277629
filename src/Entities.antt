-- ===== src/Entities.antt =====
-- The rows of prisma/schema.prisma, with the columns that the modelled services use, and the unique
-- constraints. A date is the ISO text that `toISOString` prints, except where the code compares it.
use schematica_api.Common.{String, ℕ, Bool, true, false, ◌&&◌, ◌||◌, ◌==◌, nat_eq, Option}
use schematica_api.Json.{Value}
use schematica_api.User.{Role}

pub data EndpointStatus : Type 0 where
  draft in_review published deprecated : EndpointStatus

abbrev pub status_eq : EndpointStatus → EndpointStatus → Bool
status_eq draft draft = true
status_eq in_review in_review = true
status_eq published published = true
status_eq deprecated deprecated = true
status_eq _ _ = false

pub data AccessType : Type 0 where
  owner viewer : AccessType

abbrev pub is_owner : AccessType → Bool
is_owner owner = true
is_owner viewer = false

pub record User : Type 0 where
  pub id : String
  pub username : String
  pub password : Option String
  pub role : Role
  pub profile_image : Option String
  pub token_version : ℕ
  pub deleted_at : Option String

pub record Team : Type 0 where
  pub id : String
  pub name : String

pub record TeamMembership : Type 0 where
  pub user_id : String
  pub team_id : String

pub record Project : Type 0 where
  pub id : String
  pub name : String
  pub name_normalized : String
  pub description : Option String
  pub servers : Option Value
  pub creator_id : String
  pub updated_by_id : String
  pub updated_at : String

pub record UserProjectAccess : Type 0 where
  pub user_id : String
  pub project_id : String
  pub type : AccessType

pub record TeamProjectAccess : Type 0 where
  pub team_id : String
  pub project_id : String
  pub type : AccessType

-- A row of the relation `DeniedProjectAccess`.
pub record DeniedUser : Type 0 where
  pub user_id : String
  pub project_id : String

pub record Endpoint : Type 0 where
  pub id : String
  pub path : String
  pub method : String
  pub status : EndpointStatus
  pub operation : Value
  pub project_id : String
  pub creator_id : String
  pub updated_by_id : String
  pub created_at : String
  pub updated_at : String

pub record Note : Type 0 where
  pub id : ℕ
  pub content : String
  pub endpoint_id : String
  pub author_id : String

pub record Environment : Type 0 where
  pub id : String
  pub name : String
  pub description : Option String
  pub project_id : String

pub record Secret : Type 0 where
  pub id : ℕ
  pub key : String
  pub value : String
  pub description : Option String
  pub environment_id : String

pub record AuthProvider : Type 0 where
  pub provider : String
  pub provider_id : String
  pub user_id : String

pub record SchemaComponent : Type 0 where
  pub id : String
  pub name : String
  pub description : Option String
  pub schema : Value
  pub project_id : String
  pub creator_id : String
  pub updated_by_id : String

-- The times of the next three are compared: milliseconds.
pub record AuditLog : Type 0 where
  pub id : ℕ
  pub actor_id : Option String
  pub actor_username : String
  pub action : String
  pub target_id : String
  pub created_at : ℕ

pub record Changelog : Type 0 where
  pub id : ℕ
  pub project_id : String
  pub related_id : String
  pub message : String
  pub actor_id : Option String
  pub created_at : ℕ

pub record Notification : Type 0 where
  pub id : ℕ
  pub message : String
  pub link : String
  pub actor_id : Option String
  pub created_at : ℕ

pub record UserNotificationStatus : Type 0 where
  pub notification_id : ℕ
  pub user_id : String
  pub is_read : Bool
  pub read_at : Option ℕ

-- `@id`, `@unique` and `@@unique`
abbrev pub user_clash : User → User → Bool
user_clash a b = a.id == b.id || a.username == b.username

abbrev pub team_clash : Team → Team → Bool
team_clash a b = a.id == b.id

abbrev pub project_clash : Project → Project → Bool
project_clash a b = a.id == b.id || a.name_normalized == b.name_normalized

abbrev pub endpoint_clash : Endpoint → Endpoint → Bool
endpoint_clash a b =
    a.id == b.id || (a.project_id == b.project_id && (a.path == b.path && a.method == b.method))

abbrev pub note_clash : Note → Note → Bool
note_clash a b = nat_eq a.id b.id

abbrev pub environment_clash : Environment → Environment → Bool
environment_clash a b = a.id == b.id || (a.project_id == b.project_id && a.name == b.name)

abbrev pub secret_clash : Secret → Secret → Bool
secret_clash a b = nat_eq a.id b.id || (a.environment_id == b.environment_id && a.key == b.key)

abbrev pub auth_provider_clash : AuthProvider → AuthProvider → Bool
auth_provider_clash a b = a.provider == b.provider && a.provider_id == b.provider_id

abbrev pub schema_component_clash : SchemaComponent → SchemaComponent → Bool
schema_component_clash a b = a.id == b.id || (a.project_id == b.project_id && a.name == b.name)

abbrev pub audit_log_clash : AuditLog → AuditLog → Bool
audit_log_clash a b = nat_eq a.id b.id

abbrev pub changelog_clash : Changelog → Changelog → Bool
changelog_clash a b = nat_eq a.id b.id

abbrev pub notification_clash : Notification → Notification → Bool
notification_clash a b = nat_eq a.id b.id

abbrev pub notification_status_clash : UserNotificationStatus → UserNotificationStatus → Bool
notification_status_clash a b = nat_eq a.notification_id b.notification_id && a.user_id == b.user_id
