-- ===== src/Users/Listing.antt =====
-- users/users.service.ts: the page of all users.
use schematica_api.Common.{none, Bool}
use schematica_api.Database.{Database, PrismaService}
use schematica_api.Entities.{User}
use schematica_api.Pagination.{
  PaginationSearchQueryDto, PaginatedServiceResponse, OrderBy, paginated, matches_search, Contains,
  text_before,
}
use schematica_api.Users.Sanitized.{SanitizedUserDto, sanitized}

-- `select` leaves out `deletedAt`, which then reads `undefined`.
abbrev pub selected : User → SanitizedUserDto
selected user = sanitized (record user { deleted_at = none })

abbrev pub by_username : User → User → Bool
by_username a b = text_before a.username b.username

unfoldable pub find_all_paginated :
    PrismaService
    → OrderBy
    → Contains
    → Database
    → PaginationSearchQueryDto
    → PaginatedServiceResponse SanitizedUserDto
find_all_paginated client order_by contains db query =
    paginated selected
      (order_by User by_username
        (client.user.find_many (λ u. matches_search contains query.search u.username) db.users))
      (client.user.count (λ u. matches_search contains query.search u.username) db.users)
      query.query
