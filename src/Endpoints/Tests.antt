-- ===== src/Endpoints/Tests.antt =====
-- Requests on a small state.
use schematica_api.Common.{
  ◌≡◌, ◌≢◌, refl, none, some, [], ◌∷◌, String, eq_iff, arith, to_lower_case,
}
use schematica_api.Database.{memory_client, memory_client-IsPrisma, Database}
use schematica_api.Endpoints.{
  UpdateEndpointDto, update, lint_operation, get_project_schemas, updated_endpoint,
}
use schematica_api.Endpoints.Concurrency.{update_current, update_once}
use schematica_api.Endpoints.Status.{
  update_status, update_status_refused, update_status_written, status_events, still_has,
  with_status,
}
use schematica_api.Entities.{Endpoint, in_review, published}
use schematica_api.Events.{Done, endpoint_updated}
use schematica_api.Exceptions.{ok, throw, endpoint_status_concurrency}
use schematica_api.ApiLinting.{Linter, lint_spec}
use schematica_api.Http.{is_valid_method}
use schematica_api.Prisma.{patch_all}
use schematica_api.Samples.{alice, alice_row, item_endpoint, get_item, db}

abbrev silent : Linter
silent spec = some []

abbrev edit : String → UpdateEndpointDto
edit at = record {
  path = "/things";
  method = "GET";
  operation = get_item;
  last_known_updated_at = at;
  status = none;
}

abbrev edited : Endpoint
edited = updated_endpoint memory_client (edit "T0") alice "alice" item_endpoint "T5" item_endpoint

abbrev edited_done : Done Endpoint
edited_done = record {
  db = record db { endpoints = edited ∷ [] };
  events = endpoint_updated alice "p1" item_endpoint edited ∷ [];
  value = edited;
}

linted :
    lint_operation silent get_item "/things" "GET" (get_project_schemas memory_client db "p1")
    ≡ ok tt
unfolding lint_operation is_valid_method to_lower_case lint_spec
linted = refl

update_current_example :
    update memory_client silent db "p1" "e1" (edit "T0") alice "T5" ≡ ok edited_done
update_current_example =
    update_current memory_client memory_client-IsPrisma silent db "p1" "e1" (edit "T0") alice "T5"
      item_endpoint item_endpoint alice_row linted refl refl refl refl refl

t5_ne_t0 : ◌≢◌ {A = String} "T5" "T0"
t5_ne_t0 = ground (arith, eq_iff "T5" "T0")

update_once_example :
    update memory_client silent edited_done.db "p1" "e1" (edit "T0") alice "T6" ≢ ok edited_done
update_once_example =
    update_once memory_client memory_client-IsPrisma silent db "p1" "e1" (edit "T0") (edit "T0")
      alice alice "T5" "T6" edited_done edited_done refl t5_ne_t0 refl update_current_example

-- Meanwhile the endpoint was published.
abbrev moved_db : Database
moved_db = record db { endpoints = record item_endpoint { status = published } ∷ [] }

update_status_refused_example :
    update_status memory_client db moved_db "p1" "e1" in_review alice "T5"
    ≡ throw endpoint_status_concurrency
update_status_refused_example =
    update_status_refused memory_client memory_client-IsPrisma db moved_db "p1" "e1" in_review alice
      "T5" item_endpoint refl refl refl refl

update_status_written_example :
    (row : Endpoint) × (row.id ≡ "e1")
    × (update_status memory_client db db "p1" "e1" in_review alice "T5"
        ≡ ok (record {
          db = record db {
            endpoints =
                patch_all
                  (still_has "e1" item_endpoint.status)
                  (with_status in_review alice "T5")
                  db.endpoints;
          };
          events = status_events alice "p1" item_endpoint in_review;
          value = row;
        }))
update_status_written_example =
    update_status_written memory_client memory_client-IsPrisma db db "p1" "e1" in_review alice "T5"
      item_endpoint refl refl refl refl refl
