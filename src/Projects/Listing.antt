-- ===== src/Projects/Listing.antt =====
-- projects/projects.service.ts: the page of the projects that a user may see, with
-- projects/dto/project-server.dto.ts.
use schematica_api.Access.{access_control_where_clause}
use schematica_api.Common.{Bool, String, Option, none, some, List, [], ◌∷◌}
use schematica_api.Database.{Database, PrismaService}
use schematica_api.Entities.{Project}
use schematica_api.Json.{Value, str, obj, arr, Items, nil, cons, get_field}
use schematica_api.Pagination.{
  PaginationQueryDto, PaginatedServiceResponse, OrderBy, paginated, text_before,
}
use schematica_api.User.{UserDto}
use schematica_api.Users.Sanitized.{SanitizedUserDto, included}

pub record ProjectServerDto : Type 0 where
  pub url : String
  pub description : Option Value

-- `isValidServerObject(item)`, and the DTO of such an item
unfoldable pub server_of : Value → Option ProjectServerDto
server_of (obj fields) = elim (get_field "url" fields) [
  | some (str url) ↦ some (record { url = url; description = get_field "description" fields })
  | _ ↦ none
]
server_of _ = none

unfoldable pub servers_of : Items → List ProjectServerDto
unfolding server_of
servers_of nil = []
servers_of (cons item items) = elim (server_of item) [
  | none ↦ servers_of items
  | some dto ↦ dto ∷ servers_of items
]

abbrev or_null : List ProjectServerDto → Option (List ProjectServerDto)
or_null [] = none
or_null (dto ∷ dtos) = some (dto ∷ dtos)

unfoldable pub from_prisma : Option Value → Option (List ProjectServerDto)
unfolding servers_of
from_prisma (some (arr items)) = or_null (servers_of items)
from_prisma _ = none

pub record ProjectSummaryDto : Type 0 where
  pub id : String
  pub name : String
  pub description : Option String
  pub servers : Option (List ProjectServerDto)
  pub updated_at : String
  pub creator : Option SanitizedUserDto
  pub updated_by : Option SanitizedUserDto

unfoldable pub project_summary : PrismaService → Database → Project → ProjectSummaryDto
unfolding from_prisma
project_summary client db project = record {
  id = project.id;
  name = project.name;
  description = project.description;
  servers = from_prisma project.servers;
  updated_at = project.updated_at;
  creator = included client db (some project.creator_id);
  updated_by = included client db (some project.updated_by_id);
}

-- `orderBy: { updatedAt: 'desc' }`; times are ISO texts.
abbrev pub latest_first : Project → Project → Bool
latest_first a b = text_before b.updated_at a.updated_at

unfoldable pub find_all_for_user :
    PrismaService
    → OrderBy
    → Database
    → UserDto
    → PaginationQueryDto
    → PaginatedServiceResponse ProjectSummaryDto
find_all_for_user client order_by db user query =
    paginated (project_summary client db)
      (order_by Project latest_first
        (client.project.find_many (access_control_where_clause db.grants user) db.projects))
      (client.project.count (access_control_where_clause db.grants user) db.projects) query
