-- ===== src/Endpoints/Listing.antt =====
-- projects/endpoints/endpoints.service.ts: the page of the endpoints of a project, and the single
-- read of an endpoint.
use schematica_api.Common.{Bool, String, Option, none, some, ◌==◌, ◌&&◌, if◌then◌else◌}
use schematica_api.Database.{Database, PrismaService}
use schematica_api.Entities.{Endpoint, EndpointStatus}
use schematica_api.Exceptions.{Result, endpoint_not_found}
use schematica_api.Json.{Value, obj, get_field}
use schematica_api.Pagination.{
  PaginationQueryDto, PaginatedServiceResponse, OrderBy, paginated, text_before,
}
use schematica_api.Prisma.Errors.{
  fine, or_not_found, no_mappings, handle_prisma_error, try_catch, ◌>>=◌,
}
use schematica_api.Users.Sanitized.{SanitizedUserDto, included}

pub record EndpointSummaryDto : Type 0 where
  pub id : String
  pub path : String
  pub method : String
  pub status : EndpointStatus
  pub summary : Option Value
  pub tags : Option Value

-- A property of the operation, if it is an object.
abbrev pub property : String → Value → Option Value
property key (obj fields) = get_field key fields
property key _ = none

unfoldable pub endpoint_summary : Endpoint → EndpointSummaryDto
endpoint_summary endpoint = record {
  id = endpoint.id;
  path = endpoint.path;
  method = endpoint.method;
  status = endpoint.status;
  summary = property "summary" endpoint.operation;
  tags = property "tags" endpoint.operation;
}

-- `orderBy: [{ path: 'asc' }, { method: 'asc' }]`
abbrev pub by_path : Endpoint → Endpoint → Bool
by_path a b = if a.path == b.path then text_before a.method b.method else text_before a.path b.path

abbrev pub of_project : String → Endpoint → Bool
of_project project_id e = e.project_id == project_id

pub record EndpointDto : Type 0 where
  pub endpoint : Endpoint
  pub creator : Option SanitizedUserDto
  pub updated_by : Option SanitizedUserDto

module _ (client : PrismaService) where
  unfoldable pub find_all_for_project :
      OrderBy → Database → String → PaginationQueryDto → PaginatedServiceResponse EndpointSummaryDto
  find_all_for_project order_by db project_id query =
      paginated endpoint_summary
        (order_by Endpoint by_path (client.endpoint.find_many (of_project project_id) db.endpoints))
        (client.endpoint.count (of_project project_id) db.endpoints) query

  unfoldable pub find_one_by_id : Database → String → String → Result EndpointDto
  find_one_by_id db project_id endpoint_id =
      try_catch
        (do
          endpoint ← or_not_found (
              client.endpoint.find_first (λ e. e.id == endpoint_id && e.project_id == project_id)
                db.endpoints)
          fine (record {
            endpoint = endpoint;
            creator = included client db (some endpoint.creator_id);
            updated_by = included client db (some endpoint.updated_by_id);
          }))
        (λ e.
          handle_prisma_error e
            (record no_mappings { missing = some (endpoint_not_found endpoint_id) }))
