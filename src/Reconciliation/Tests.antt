-- ===== src/Reconciliation/Tests.antt =====
-- Operations that were imported before.
use schematica_api.Common.Map
use schematica_api.Common.{◌≡◌, inr, refl, some, [], ◌∷◌, to_lower_case}
use schematica_api.Entities.{Endpoint}
use schematica_api.Json.{str, obj, Fields, end, field, get_field, set_field}
use schematica_api.Reconciliation.{unchanged, visit_operation}
use schematica_api.Reconciliation.Metadata.{
  visit_operation-settled, build_updated_operation-metadata,
}
use schematica_api.Reconciliation.Operations.{
  metadata_key, create_endpoint_key, is_endpoint_app_metadata, build_new_operation,
  build_updated_operation,
}
use schematica_api.Samples.{alice, root, item_endpoint, get_item}

abbrev imported : Endpoint
imported = record item_endpoint { operation = build_new_operation (obj get_item) root "T1" }

found :
    Map.get
      (create_endpoint_key "get" "/items")
      ((create_endpoint_key "GET" "/items", imported) ∷ [])
    ≡ some imported
unfolding Map.get create_endpoint_key to_lower_case
found = refl

visit_operation-settled_example :
    visit_operation
      ((create_endpoint_key "GET" "/items", imported) ∷ [])
      alice
      "p1"
      "T5"
      "/items"
      "get"
      (obj get_item)
    ≡ unchanged (create_endpoint_key "get" "/items")
visit_operation-settled_example =
    visit_operation-settled ((create_endpoint_key "GET" "/items", imported) ∷ []) alice root "p1"
      "T5" "T1" "/items" "get" (obj get_item) imported imported found (inr refl)

abbrev meta : Fields
meta = field "createdBy" (str "root") (
    field "createdAt" (str "T1")
      (field "lastEditedBy" (str "root") (field "lastEditedAt" (str "T1") end)))

abbrev old : Fields
old = field metadata_key (obj meta) get_item

build_updated_operation-metadata_example :
    (new : Fields) × (build_updated_operation
        (obj get_item)
        (record item_endpoint { operation = obj old })
        alice
        "T5"
      ≡ obj (set_field metadata_key (obj new) get_item))
    × (get_field "createdBy" new ≡ get_field "createdBy" meta)
    × (get_field "createdAt" new ≡ get_field "createdAt" meta)
    × (get_field "lastEditedBy" new ≡ some (str "alice"))
    × (get_field "lastEditedAt" new ≡ some (str "T5"))
unfolding get_field is_endpoint_app_metadata
build_updated_operation-metadata_example =
    build_updated_operation-metadata get_item old meta
      (record item_endpoint { operation = obj old }) alice "T5" refl refl refl
