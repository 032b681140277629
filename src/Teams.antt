-- ===== src/Teams.antt =====
-- teams/teams.service.ts: the page of all teams.
use schematica_api.Common.{Bool}
use schematica_api.Database.{Database, PrismaService}
use schematica_api.Entities.{Team}
use schematica_api.Pagination.{
  PaginationSearchQueryDto, PaginatedServiceResponse, OrderBy, paginated, matches_search, Contains,
  text_before,
}
use schematica_api.User.{TeamDto}

-- `TeamDto.from`
abbrev pub team_dto : Team → TeamDto
team_dto team = record { id = team.id; name = team.name }

abbrev pub by_name : Team → Team → Bool
by_name a b = text_before a.name b.name

unfoldable pub find_all_paginated :
    PrismaService
    → OrderBy
    → Contains
    → Database
    → PaginationSearchQueryDto
    → PaginatedServiceResponse TeamDto
find_all_paginated client order_by contains db query =
    paginated team_dto
      (order_by Team by_name
        (client.team.find_many (λ t. matches_search contains query.search t.name) db.teams))
      (client.team.count (λ t. matches_search contains query.search t.name) db.teams) query.query
