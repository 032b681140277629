-- ===== src/Reconciliation.antt =====
-- projects/spec-reconciliation: what an imported OpenAPI document changes in the endpoints of a
-- project. `reconcile` reads each operation of the document once, in order, and pushes at most one
-- entry for it; here each reading gives a `Visit`, and the three arrays are read off the visits.
-- Operations are values: the in-place write of the metadata into the document's own object is not
-- seen by another operation (no two share one object).
pub mod Operations
pub mod Index
pub mod Metadata
mod Tests
use schematica_api.Common.{
  String, Bool, true, false, not, ◌&&◌, Option, none, some, List, [], ◌∷◌, ◌++◌, any, ◌==◌,
  if◌then◌else◌, to_lower_case,
}
use schematica_api.Common.Map
use schematica_api.Common.Map.{is_some}
use schematica_api.Entities.{Endpoint}
use schematica_api.Http.{is_valid_method}
use schematica_api.Json.{
  Value, null, str, arr, obj, Fields, end, field, get_field, set_field, omit_field, has_field,
  entries, keys, is_string,
}
use schematica_api.Json.Equality.{fields_print_same}
use schematica_api.User.{UserDto}
use Operations.{
  create_endpoint_key, get_comparable_operation, build_updated_operation, build_new_operation,
  is_operation,
}

pub record EndpointCreate : Type 0 where
  pub path : String
  pub method : String
  pub operation : Value
  pub project_id : String
  pub creator_id : String
  pub updated_by_id : String

pub record EndpointToUpdate : Type 0 where
  pub id : String
  pub operation : Value
  pub updated_by_id : String

pub record SpecReconciliationResult : Type 0 where
  pub to_create : List EndpointCreate
  pub to_update : List EndpointToUpdate
  pub to_delete_ids : List String

-- `existingEndpointsByKey`
unfoldable pub index_endpoints : List Endpoint → List (String × Endpoint) → List (String × Endpoint)
index_endpoints [] by_key = by_key
index_endpoints (e ∷ es) by_key =
    index_endpoints es (Map.set (create_endpoint_key e.method e.path) e by_key)

-- What one operation of the document comes to, with the key that it adds to `seenKeys`.
pub data Visit : Type 0 where
  skipped : Visit
  unchanged : String → Visit
  updated : String → EndpointToUpdate → Visit
  created : String → EndpointCreate → Visit

module _ (by_key : List (String × Endpoint)) (user : UserDto) (project_id now : String) where
  -- The body of the inner loop from the look-up of the key on.
  unfoldable pub visit_operation : String → String → Value → Visit
  visit_operation path lower_method operation =
      let key = create_endpoint_key lower_method path in
      elim (Map.get key by_key) [
        | none ↦ created key (record {
          path = path;
          method = lower_method;
          operation = build_new_operation operation user now;
          project_id = project_id;
          creator_id = user.id;
          updated_by_id = user.id;
        })
        | some existing ↦
            if fields_print_same (get_comparable_operation existing.operation)
              (get_comparable_operation operation)
            then unchanged key
            else updated key (record {
              id = existing.id;
              operation = build_updated_operation operation existing user now;
              updated_by_id = user.id;
            })
      ]

  unfoldable pub visit_method : String → Fields → String → Visit
  visit_method path path_item method =
      if is_valid_method (to_lower_case method)
      then elim (get_field method path_item) [
        | none ↦ skipped
        | some operation ↦
            if is_operation operation
            then visit_operation path (to_lower_case method) operation
            else skipped
      ]
      else skipped

  -- The inner loop, over `Object.keys(pathItem)`.
  unfoldable pub visit_methods : String → Fields → List String → List Visit
  visit_methods path path_item [] = []
  visit_methods path path_item (method ∷ methods) =
      visit_method path path_item method ∷ visit_methods path path_item methods

  -- Only an object has keys that can be methods: null and the other values are passed over.
  unfoldable pub visit_path_item : String → Value → List Visit
  visit_path_item path (obj fs) = visit_methods path fs (keys fs)
  visit_path_item path _ = []

  -- The outer loop, over `Object.entries(paths)`.
  unfoldable pub visit_paths : List (String × Value) → List Visit
  visit_paths [] = []
  visit_paths ((path, path_item) ∷ paths) = visit_path_item path path_item ++ visit_paths paths

unfoldable pub creates : List Visit → List EndpointCreate
creates [] = []
creates (created key c ∷ vs) = c ∷ creates vs
creates (_ ∷ vs) = creates vs

unfoldable pub updates : List Visit → List EndpointToUpdate
updates [] = []
updates (updated key u ∷ vs) = u ∷ updates vs
updates (_ ∷ vs) = updates vs

unfoldable pub seen_keys : List Visit → List String
seen_keys [] = []
seen_keys (skipped ∷ vs) = seen_keys vs
seen_keys (unchanged key ∷ vs) = key ∷ seen_keys vs
seen_keys (updated key u ∷ vs) = key ∷ seen_keys vs
seen_keys (created key c ∷ vs) = key ∷ seen_keys vs

-- The endpoints of the index whose key no operation of the document has.
unfoldable pub unseen_ids : List (String × Endpoint) → List String → List String
unseen_ids [] seen = []
unseen_ids ((key, e) ∷ by_key) seen =
    if any (λ k. k == key) seen then unseen_ids by_key seen else e.id ∷ unseen_ids by_key seen

-- `Object.entries(newSpec.paths ?? {})`
abbrev pub path_entries : Option Value → List (String × Value)
path_entries (some (obj fs)) = entries fs
path_entries _ = []

unfoldable pub reconcile :
    List Endpoint → Fields → UserDto → String → String → SpecReconciliationResult
reconcile existing new_spec user project_id now =
    let by_key = index_endpoints existing [] in
    let visits =
      visit_paths by_key user project_id now (path_entries (get_field "paths" new_spec)) in
    record {
      to_create = creates visits;
      to_update = updates visits;
      to_delete_ids = unseen_ids by_key (seen_keys visits);
    }
