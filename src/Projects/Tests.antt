-- ===== src/Projects/Tests.antt =====
-- Sharing a project of a small state.
use schematica_api.ApiLinting.{Linter, lint_spec}
use schematica_api.Common.{to_lower_case, some, String}
use schematica_api.Http.{is_valid_method}
use schematica_api.Json.{has_field, arr, nil, get_field}
use schematica_api.Projects.Import.{
  Parser, resolved, dereference, lint, apply_document, import_open_api_spec, create_many,
  update_all,
}
use schematica_api.Projects.Import.Unchanged.{endpoints_of, import-build}
use schematica_api.Reconciliation.{EndpointCreate}
use schematica_api.Reconciliation.Operations.{is_operation}
use schematica_api.SpecBuilder.{build}
use schematica_api.SpecBuilder.RoundTrip.{reconcile-build}
use schematica_api.Access.Rules.{MayOwn}
use schematica_api.Common.{◌≡◌, refl, [], ◌∷◌}
use schematica_api.Database.{memory_client, memory_client-IsPrisma}
use schematica_api.Entities.{Project}
use schematica_api.Events.{Done, audit}
use schematica_api.Exceptions.{ok}
use schematica_api.Projects.Sharing.{UpdateAccessDto, shared, share, update_access}
use schematica_api.Projects.Sharing.Lockout.{update_access-MayOwn}
use schematica_api.Samples.{alice, shop, db}

abbrev only_alice : UpdateAccessDto
only_alice = record {
  owner_user_ids = "u1" ∷ [];
  owner_team_ids = [];
  viewer_user_ids = [];
  viewer_team_ids = [];
  denied_user_ids = [];
  last_known_updated_at = "T0";
}

abbrev shared_shop : Project
shared_shop = record shop { updated_at = "T5" }

abbrev after : Done Project
after = record {
  db = record db { grants = record (shared db "p1" only_alice) { projects = shared_shop ∷ [] } };
  events = audit alice "PROJECT_ACCESS_UPDATED" "p1" ∷ [];
  value = shared_shop;
}

only_alice_run : update_access memory_client db "p1" only_alice alice "T5" ≡ ok after
unfolding update_access share
only_alice_run = refl

update_access-MayOwn_example : MayOwn (after.db).grants alice "p1"
update_access-MayOwn_example =
    update_access-MayOwn memory_client memory_client-IsPrisma db "p1" only_alice alice "T5" after
      only_alice_run

abbrev closed_parser : Parser
closed_parser spec = resolved spec

abbrev silent : Linter
silent spec = some []

abbrev imported_shop : Project
imported_shop = record shop { updated_at = "T5"; servers = some (arr nil) }

abbrev imported : Done Project
imported = record {
  db = record db { grants = record (db.grants) { projects = imported_shop ∷ [] } };
  events = audit alice "PROJECT_SPEC_IMPORTED" "p1" ∷ [];
  value = imported_shop;
}

abbrev new_id : EndpointCreate → String
new_id c = "e2"

import_run :
    import_open_api_spec memory_client closed_parser silent db "p1"
      (build shop (endpoints_of "p1" db) [])
      "T0"
      alice
      new_id
      "T5"
    ≡ ok imported
unfolding import_open_api_spec dereference lint lint_spec apply_document create_many update_all
    is_valid_method to_lower_case is_operation has_field get_field build
import_run =
    rw (reconcile-build shop (endpoints_of "p1" db) [] alice "p1" "T5" (tt, tt) ((refl, refl), tt))
      refl

import-build_example : ((imported.db).endpoints ≡ db.endpoints) × ((imported.db).notes ≡ db.notes)
unfolding is_valid_method to_lower_case is_operation has_field
import-build_example =
    import-build memory_client memory_client-IsPrisma closed_parser silent db "p1" "T0" shop []
      alice new_id "T5" imported (tt, tt) ((refl, refl), tt) refl import_run
