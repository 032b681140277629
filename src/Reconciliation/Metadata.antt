-- ===== src/Reconciliation/Metadata.antt =====
-- What an import does to the metadata of an operation.
use schematica_api.Common.{String, true, ◌≡◌, ◌⊎◌, inl, inr, refl, some, List}
use schematica_api.Common.Map
use schematica_api.Entities.{Endpoint}
use schematica_api.Json.{Value, str, obj, Fields, get_field, set_field}
use schematica_api.Json.Equality.{fields_print_same_iff}
use schematica_api.Json.Objects.{get_field-set_field, omit_field-set_field}
use schematica_api.Reconciliation.{unchanged, visit_operation}
use schematica_api.Reconciliation.Operations.{
  metadata_key, create_endpoint_key, get_comparable_operation, is_endpoint_app_metadata,
  set_metadata, existing_metadata, base_metadata, build_updated_operation, build_new_operation,
}
use schematica_api.User.{UserDto}

-- Metadata is no part of what is compared.
comparable-set_metadata :
    (operation : Value) (meta : Fields)
    → get_comparable_operation (set_metadata operation meta) ≡ get_comparable_operation operation
unfolding get_comparable_operation set_metadata
comparable-set_metadata (obj fs) meta = omit_field-set_field metadata_key (obj meta) fs
comparable-set_metadata operation meta = refl

module _ (by_key : List (String × Endpoint)) (user : UserDto) (project_id now : String)
    (path method : String) (operation : Value) (stored : Endpoint)
    (indexed : Map.get (create_endpoint_key method path) by_key ≡ some stored) where
  same-unchanged :
      get_comparable_operation stored.operation ≡ get_comparable_operation operation
      → visit_operation by_key user project_id now path method operation
        ≡ unchanged (create_endpoint_key method path)
  unfolding visit_operation
  same-unchanged same =
      rw
        (
          indexed,
          visit_operation,
          (fields_print_same_iff (get_comparable_operation stored.operation)
                (get_comparable_operation operation)).1
              same,
        )
        refl

-- Importing an operation a second time changes nothing: where the stored operation is the one that an
-- earlier import wrote for it, as an update or as a new endpoint, by anyone at any time, the operation
-- of the document counts as unchanged.
pub visit_operation-settled :
    (by_key : List (String × Endpoint)) (user earlier : UserDto) (project_id now before : String)
    (path method : String) (operation : Value) (stored replaced : Endpoint)
    → Map.get (create_endpoint_key method path) by_key ≡ some stored
    → (stored.operation ≡ build_updated_operation operation replaced earlier before)
      ⊎ (stored.operation ≡ build_new_operation operation earlier before)
    → visit_operation by_key user project_id now path method operation
      ≡ unchanged (create_endpoint_key method path)
unfolding build_updated_operation build_new_operation
visit_operation-settled by_key user earlier project_id now before path method operation stored
      replaced indexed (inl wrote) =
    same-unchanged by_key user project_id now path method operation stored indexed
      (rw wrote (comparable-set_metadata operation _))
visit_operation-settled by_key user earlier project_id now before path method operation stored
      replaced indexed (inr wrote) =
    same-unchanged by_key user project_id now path method operation stored indexed
      (rw wrote (comparable-set_metadata operation _))

-- An update keeps the author and the time of the creation that well-formed metadata of the stored
-- operation records, and records the importing user and the time of the import as the last edit; the
-- other fields of the operation are those of the document.
pub build_updated_operation-metadata :
    (fields old meta : Fields) (existing : Endpoint) (user : UserDto) (now : String)
    → existing.operation ≡ obj old
    → get_field metadata_key old ≡ some (obj meta)
    → is_endpoint_app_metadata (obj meta) ≡ true
    → (new : Fields) × (build_updated_operation (obj fields) existing user now
        ≡ obj (set_field metadata_key (obj new) fields))
      × (get_field "createdBy" new ≡ get_field "createdBy" meta)
      × (get_field "createdAt" new ≡ get_field "createdAt" meta)
      × (get_field "lastEditedBy" new ≡ some (str user.username))
      × (get_field "lastEditedAt" new ≡ some (str now))
unfolding build_updated_operation set_metadata existing_metadata base_metadata
build_updated_operation-metadata fields old meta existing user now stored found fits =
    let edited = set_field "lastEditedBy" (str user.username) meta in
    (
      set_field "lastEditedAt" (str now) edited,
      rw (stored, found, base_metadata, fits) refl,
      rw
          (
            get_field-set_field "lastEditedAt" "createdBy" (str now) edited,
            get_field-set_field "lastEditedBy" "createdBy" (str user.username) meta,
          )
          refl,
      rw
          (
            get_field-set_field "lastEditedAt" "createdAt" (str now) edited,
            get_field-set_field "lastEditedBy" "createdAt" (str user.username) meta,
          )
          refl,
      rw
          (
            get_field-set_field "lastEditedAt" "lastEditedBy" (str now) edited,
            get_field-set_field "lastEditedBy" "lastEditedBy" (str user.username) meta,
          )
          refl,
      rw (get_field-set_field "lastEditedAt" "lastEditedAt" (str now) edited) refl,
    )
