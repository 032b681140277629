-- ===== src/Admin/Users/Listing.antt =====
-- admin/users/admin-users.service.ts: the page of all users, for an admin.
use schematica_api.Auth.{UserWithTeams, without_password, teams_of}
use schematica_api.Database.{Database, PrismaService}
use schematica_api.Entities.{User}
use schematica_api.Pagination.{
  PaginationSearchQueryDto, PaginatedServiceResponse, OrderBy, paginated, matches_search, Contains,
}
use schematica_api.Users.Listing.{by_username}

abbrev pub with_teams : Database → User → UserWithTeams
with_teams db user = record { user = without_password user; teams = teams_of db user.id }

unfoldable pub find_all :
    PrismaService
    → OrderBy
    → Contains
    → Database
    → PaginationSearchQueryDto
    → PaginatedServiceResponse UserWithTeams
find_all client order_by contains db query =
    paginated (with_teams db)
      (order_by User by_username
        (client.user.find_many (λ u. matches_search contains query.search u.username) db.users))
      (client.user.count (λ u. matches_search contains query.search u.username) db.users)
      query.query
