-- ===== src/Listings.antt =====
-- The pages that the services answer: users, teams, projects, endpoints, notifications, the
-- changelog and the audit log.
mod Tests
use schematica_api.Access.{access_control_where_clause}
use schematica_api.Admin.Users.Listing.{find_all, with_teams}
use schematica_api.Audit
use schematica_api.Audit.{AuditLogQueryDto, fits_query, audit_log_dto}
use schematica_api.Changelog
use schematica_api.Changelog.{find_all_for_project, changelog_dto}
use schematica_api.Common.{Bool, String, ℕ, ◌≤◌, ◌≡◌, refl, Option, List, length, map, keep, ◌==◌}
use schematica_api.Database.{Database, PrismaService, IsPrisma, memory_client, for_every_client}
use schematica_api.Endpoints.Listing as EndpointList
use schematica_api.Entities.{
  User, Team, Project, Endpoint, UserNotificationStatus, Changelog, AuditLog,
}
use schematica_api.Notifications.Service.Listing as NotificationList
use schematica_api.Pagination.{
  PaginationQueryDto, PaginationSearchQueryDto, PaginatedServiceResponse, OrderBy, IsOrderBy,
  last_page, matches_search, Contains, paginated,
}
use schematica_api.Pagination.Pages.{IsPaged, paginated-IsPaged}
use schematica_api.Projects.Listing as ProjectList
use schematica_api.Teams
use schematica_api.User.{UserDto}
use schematica_api.Users.Listing as UserList

-- A listing answers the page and the limit that it was asked for and the number of its last page, and
-- its pages make up the rows of the table that fit, in the order of the listing.
abbrev pub IsListing :
    {Row A : Type 0}
    → OrderBy
    → (Row → A)
    → (Row → Row → Bool)
    → (Row → Bool)
    → List Row
    → ℕ
    → (PaginationQueryDto → PaginatedServiceResponse A)
    → Type 0
IsListing {Row = Row} order_by dto before fits table limit respond =
    ((query : PaginationQueryDto)
      → ((respond query).meta ≡ record {
        total = length (keep fits table);
        page = query.page;
        limit = query.limit;
        last_page = last_page (length (keep fits table)) query.limit;
      }))
    × IsPaged (λ page. (respond (record { limit = limit; page = page })).items)
        (map dto (order_by Row before (keep fits table))) (length (keep fits table)) limit

-- The seven listings, each with its filter and its order.
abbrev pub AreListings :
    PrismaService → OrderBy → Contains → Database → UserDto → Option String → String → ℕ → Type 0
AreListings client order_by contains db user search id limit =
    IsListing order_by UserList.selected UserList.by_username
      (λ u. matches_search contains search u.username) db.users limit
      (λ query.
        UserList.find_all_paginated client order_by contains db
          (record { query = query; search = search }))
    × IsListing order_by (with_teams db) UserList.by_username
        (λ u. matches_search contains search u.username) db.users limit
        (λ query. find_all client order_by contains db (record { query = query; search = search }))
    × IsListing order_by Teams.team_dto Teams.by_name (λ t. matches_search contains search t.name)
        db.teams limit
        (λ query.
          Teams.find_all_paginated client order_by contains db
            (record { query = query; search = search }))
    × IsListing order_by (ProjectList.project_summary client db) ProjectList.latest_first
        (access_control_where_clause db.grants user) db.projects limit
        (ProjectList.find_all_for_user client order_by db user)
    × IsListing order_by EndpointList.endpoint_summary EndpointList.by_path
        (EndpointList.of_project id) db.endpoints limit
        (EndpointList.find_all_for_project client order_by db id)
    × IsListing order_by (NotificationList.shown client db) (NotificationList.newest_first db)
        (λ s. s.user_id == user.id) db.notification_statuses limit
        (NotificationList.find_all_for_user client order_by db user.id)
    × IsListing order_by (changelog_dto client db) Changelog.newest_first (λ l. l.project_id == id)
        db.changelogs limit (find_all_for_project client order_by db id)

-- The audit log, which is asked with a query of its own.
abbrev pub IsAuditListing : PrismaService → OrderBy → Database → AuditLogQueryDto → ℕ → Type 0
IsAuditListing client order_by db query limit =
    IsListing order_by (audit_log_dto client db) Audit.newest_first (fits_query query) db.audit_logs
      limit (λ page. Audit.find_all_paginated client order_by db (record query { query = page }))

paginated-IsListing :
    {Row A : Type 0} (order_by : OrderBy) (dto : Row → A) (before : Row → Row → Bool)
    (fits : Row → Bool) (table : List Row) (limit : ℕ)
    → IsOrderBy order_by
    → 1 ≤ limit
    → IsListing order_by dto before fits table limit
        (paginated dto (order_by Row before (keep fits table)) (length (keep fits table)))
unfolding paginated
paginated-IsListing order_by dto before fits table limit same positive =
    (λ query. refl, paginated-IsPaged order_by dto before fits table limit same positive)

module _ (order_by : OrderBy) (contains : Contains) (db : Database) (user : UserDto)
    (search : Option String) (id : String) (query : AuditLogQueryDto) (limit : ℕ)
    (same : IsOrderBy order_by) (positive : 1 ≤ limit) where
  AreListings-in_memory :
      AreListings memory_client order_by contains db user search id limit
      × IsAuditListing memory_client order_by db query limit
  unfolding UserList.find_all_paginated find_all Teams.find_all_paginated
      ProjectList.find_all_for_user EndpointList.find_all_for_project
      NotificationList.find_all_for_user find_all_for_project Audit.find_all_paginated
  AreListings-in_memory = (
    (
      paginated-IsListing order_by _ _ _ db.users limit same positive,
      paginated-IsListing order_by _ _ _ db.users limit same positive,
      paginated-IsListing order_by _ _ _ db.teams limit same positive,
      paginated-IsListing order_by _ _ _ db.projects limit same positive,
      paginated-IsListing order_by _ _ _ db.endpoints limit same positive,
      paginated-IsListing order_by _ _ _ db.notification_statuses limit same positive,
      paginated-IsListing order_by _ _ _ db.changelogs limit same positive,
    ),
    paginated-IsListing order_by _ _ _ db.audit_logs limit same positive,
  )

-- For every limit of at least 1 and every ordering of the database that keeps the rows, however it compares a
-- search with a text, the eight
-- listings answer the page and the limit they were asked for, the number of the rows that fit and
-- the number of the last page; the pages up to the last one are together the rows that fit, in the
-- order of the listing; no page has more rows than the limit; none up to the last one is empty,
-- where any row fits; and all behind it are empty.
pub find_all-IsListing :
    (client : PrismaService)
    → IsPrisma client
    → (order_by : OrderBy) → IsOrderBy order_by
    → (contains : Contains) (db : Database) (user : UserDto) (search : Option String) (id : String)
      (query : AuditLogQueryDto) (limit : ℕ)
    → 1 ≤ limit
    → AreListings client order_by contains db user search id limit
      × IsAuditListing client order_by db query limit
find_all-IsListing client laws order_by same contains db user search id query limit positive =
    for_every_client
      (λ c.
        AreListings c order_by contains db user search id limit
        × IsAuditListing c order_by db query limit)
      client laws
      (AreListings-in_memory order_by contains db user search id query limit same positive)
