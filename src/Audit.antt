-- ===== src/Audit.antt =====
-- audit/audit.service.ts, audit/audit.listener.ts and cleanup/cleanup.service.ts: the audit log, its
-- page, and the job that deletes old records. The date that lies a number of days before now is a
-- parameter, as it depends on the time zone of the server.
pub mod Retention
mod Tests
use schematica_api.Common.{
  String, ℕ, Bool, true, false, ◌&&◌, Option, none, some, List, [], ◌∷◌, ◌++◌, any, ◌==◌, leb, ltb,
  nat_eq, if◌then◌else◌, Integer,
}
use schematica_api.Database.{Database, PrismaService}
use schematica_api.Entities.{AuditLog, Changelog}
use schematica_api.Pagination.{PaginationQueryDto, PaginatedServiceResponse, OrderBy, paginated}
use schematica_api.Prisma.Errors.{Outcome, done, failed}
use schematica_api.User.{UserDto}
use schematica_api.Users.Sanitized.{SanitizedUserDto, included}

pub record AuditLogQueryDto : Type 0 where
  pub query : PaginationQueryDto
  pub actor_id : Option String
  pub target_id : Option String
  pub action : Option String

pub record AuditLogDto : Type 0 where
  pub id : ℕ
  pub action : String
  pub target_id : String
  pub created_at : ℕ
  pub actor : Option SanitizedUserDto

-- `if (value) where.column = value`
abbrev pub is_wanted : Option String → Option String → Bool
is_wanted none value = true
is_wanted (some wanted) none = wanted == ""
is_wanted (some wanted) (some value) = if wanted == "" then true else value == wanted

abbrev pub fits_query : AuditLogQueryDto → AuditLog → Bool
fits_query query log =
    is_wanted query.actor_id log.actor_id
    && is_wanted query.target_id (some log.target_id)
    && is_wanted query.action (some log.action)

abbrev pub audit_log_dto : PrismaService → Database → AuditLog → AuditLogDto
audit_log_dto client db log = record {
  id = log.id;
  action = log.action;
  target_id = log.target_id;
  created_at = log.created_at;
  actor = included client db log.actor_id;
}

-- `orderBy: { createdAt: 'desc' }`
abbrev pub newest_first : AuditLog → AuditLog → Bool
newest_first a b = leb b.created_at a.created_at

unfoldable pub find_all_paginated :
    PrismaService → OrderBy → Database → AuditLogQueryDto → PaginatedServiceResponse AuditLogDto
find_all_paginated client order_by db query =
    paginated (audit_log_dto client db)
      (order_by AuditLog newest_first (client.audit_log.find_many (fits_query query) db.audit_logs))
      (client.audit_log.count (fits_query query) db.audit_logs) query.query

abbrev or_unchanged : Database → Outcome (List AuditLog) → Database
or_unchanged db (done rows) = record db { audit_logs = rows }
or_unchanged db (failed code) = db

-- The actor of the row exists; a row that cannot be written is logged, and nothing else.
unfoldable pub handle_audit_log_event :
    PrismaService → ℕ → ℕ → Database → UserDto → String → String → Database
handle_audit_log_event client new_id now db actor action target_id = or_unchanged db (
    client.audit_log.create (any (λ u. u.id == actor.id) db.users)
      (record {
        id = new_id;
        actor_id = some actor.id;
        actor_username = actor.username;
        action = action;
        target_id = target_id;
        created_at = now;
      })
      db.audit_logs)

-- `logRetentionDays <= 0`
abbrev pub is_disabled : Integer → Bool
is_disabled days = if days.is_negative then true else nat_eq days.magnitude 0

-- The two deletions are one transaction.
unfoldable pub handle_log_cleanup : PrismaService → (ℕ → ℕ → ℕ) → Integer → ℕ → Database → Database
handle_log_cleanup client days_before log_retention_days now db =
    let cutoff_date = days_before log_retention_days.magnitude now in
    if is_disabled log_retention_days then db else record db {
      audit_logs =
          (client.audit_log.delete_many (λ l. ltb l.created_at cutoff_date) db.audit_logs).0;
      changelogs =
          (client.changelog.delete_many (λ l. ltb l.created_at cutoff_date) db.changelogs).0;
    }
