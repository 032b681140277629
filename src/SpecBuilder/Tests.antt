-- ===== src/SpecBuilder/Tests.antt =====
-- A document built and read back.
use schematica_api.Common.{◌≡◌, refl, [], ◌∷◌, to_lower_case}
use schematica_api.Http.{is_valid_method}
use schematica_api.Json.{has_field}
use schematica_api.Reconciliation.Operations.{is_operation}
use schematica_api.Reconciliation.{reconcile}
use schematica_api.Samples.{alice, shop, item_endpoint}
use schematica_api.SpecBuilder.{build}
use schematica_api.SpecBuilder.RoundTrip.{reconcile-build}

reconcile-build_example :
    reconcile (item_endpoint ∷ []) (build shop (item_endpoint ∷ []) []) alice "p1" "T1"
    ≡ record { to_create = []; to_update = []; to_delete_ids = [] }
unfolding is_valid_method to_lower_case is_operation has_field
reconcile-build_example =
    reconcile-build shop (item_endpoint ∷ []) [] alice "p1" "T1" (tt, tt) ((refl, refl), tt)
