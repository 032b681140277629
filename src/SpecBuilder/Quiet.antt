-- ===== src/SpecBuilder/Quiet.antt =====
-- Reading a built document against the endpoints that it was built from finds nothing to change.
use schematica_api.Common.{
  String, true, ◌≡◌, inl, inr, refl, ap, some, List, [], ◌∷◌, In, All, All-In, All-append,
  to_lower_case, to_lower_case_idem, Option-cases, Bool-cases,
}
use schematica_api.Entities.{Endpoint}
use schematica_api.Http.{is_valid_method}
use schematica_api.Json.{Value, Fields, get_field, entries, keys}
use schematica_api.Json.Objects.{AllFields, AllFields-get}
use schematica_api.Json.Equality.{fields_print_same_iff}
use schematica_api.Reconciliation.{
  Visit, skipped, unchanged, updated, created, index_endpoints, visit_operation, visit_method,
  visit_methods, visit_path_item, visit_paths, creates, updates,
}
use schematica_api.Reconciliation.Operations.{
  create_endpoint_key, get_comparable_operation, is_operation,
}
use schematica_api.Reconciliation.Index.{key_of, HasDistinctKeys, get-index_endpoints}
use schematica_api.SpecBuilder.{paths_object}
use schematica_api.SpecBuilder.Paths.{IsFrom, AllFrom}
use schematica_api.User.{UserDto}

-- What the create and update requests of an endpoint guarantee of its method and operation.
abbrev pub IsClean : Endpoint → Type 0
IsClean e = (is_valid_method (to_lower_case e.method) ≡ true) × (is_operation e.operation ≡ true)

abbrev pub IsQuiet : Visit → Type 0
IsQuiet (created key c) = ⊥
IsQuiet (updated key u) = ⊥
IsQuiet v = Unit

pub creates-nil : (vs : List Visit) → All IsQuiet vs → creates vs ≡ []
unfolding creates
creates-nil [] h = refl
creates-nil (skipped ∷ vs) h = creates-nil vs h.1
creates-nil (unchanged k ∷ vs) h = creates-nil vs h.1
creates-nil (updated k u ∷ vs) h = absurd h.0
creates-nil (created k c ∷ vs) h = absurd h.0

pub updates-nil : (vs : List Visit) → All IsQuiet vs → updates vs ≡ []
unfolding updates
updates-nil [] h = refl
updates-nil (skipped ∷ vs) h = updates-nil vs h.1
updates-nil (unchanged k ∷ vs) h = updates-nil vs h.1
updates-nil (updated k u ∷ vs) h = absurd h.0
updates-nil (created k c ∷ vs) h = absurd h.0

pub key-lower :
    (e : Endpoint) → create_endpoint_key (to_lower_case (to_lower_case e.method)) e.path ≡ key_of e
unfolding create_endpoint_key
key-lower e = simp to_lower_case_idem

module _ (es : List Endpoint) (distinct : HasDistinctKeys es) (clean : All IsClean es)
    (user : UserDto) (project_id now : String) where
  pub visit_operation-unchanged :
      (e : Endpoint)
      → In e es
      → visit_operation
          (index_endpoints es [])
          user
          project_id
          now
          e.path
          (to_lower_case (to_lower_case e.method))
          e.operation
        ≡ unchanged (key_of e)
  unfolding visit_operation
  visit_operation-unchanged e i =
      rw
        (
          key-lower e,
          get-index_endpoints e es [] distinct i,
          visit_operation,
          (fields_print_same_iff (get_comparable_operation e.operation) _).1 refl,
        )
        (ap unchanged (key-lower e))

  -- The visit of a method of an item that was filled from the endpoints.
  pub visit_method-from :
      (path method : String) (item : Fields) (operation : Value)
      → AllFields (IsFrom es path) item
      → get_field method item ≡ some operation
      → (e : Endpoint) × In e es
        × (e.path ≡ path)
        × (to_lower_case e.method ≡ method)
        × (visit_method (index_endpoints es []) user project_id now path item method
            ≡ unchanged (key_of e))
  unfolding visit_method
  visit_method-from path method item operation h g =
      let (e, i, same_path, same_method, same_operation) =
        AllFields-get (IsFrom es path) method operation item h g in
      let c = All-In IsClean e es clean i in
      let valid : is_valid_method (to_lower_case method) ≡ true =
        rw (← same_method, to_lower_case_idem) c.0 in
      let is_op : is_operation operation ≡ true = rw (← same_operation) c.1 in
      (
        e,
        i,
        same_path,
        same_method,
        rw (valid, g, visit_method, is_op, ← same_operation, ← same_path, ← same_method)
            (visit_operation-unchanged e i),
      )

  pub IsQuiet-visit_method :
      (path method : String) (item : Fields)
      → AllFields (IsFrom es path) item
      → IsQuiet (visit_method (index_endpoints es []) user project_id now path item method)
  unfolding visit_method
  IsQuiet-visit_method path method item h = elim (Option-cases (get_field method item)) [
    | inl missing ↦ elim (Bool-cases (is_valid_method (to_lower_case method))) [
      | inl valid ↦ rw (valid, missing, visit_method) tt
      | inr bad ↦ rw bad tt
    ]
    | inr (operation, found) ↦
        let (e, i, p, m, same) = visit_method-from path method item operation h found in rw same tt
  ]

  pub IsQuiet-visit_methods :
      (path : String) (item : Fields) (methods : List String)
      → AllFields (IsFrom es path) item
      → All IsQuiet (visit_methods (index_endpoints es []) user project_id now path item methods)
  unfolding visit_methods
  IsQuiet-visit_methods path item [] h = tt
  IsQuiet-visit_methods path item (m ∷ ms) h =
      (IsQuiet-visit_method path m item h, IsQuiet-visit_methods path item ms h)

  pub IsQuiet-visit_paths :
      (paths : List (String × Fields))
      → AllFrom es paths
      → All IsQuiet
          (visit_paths (index_endpoints es []) user project_id now (entries (paths_object paths)))
  unfolding visit_paths visit_path_item paths_object entries
  IsQuiet-visit_paths [] h = tt
  IsQuiet-visit_paths ((path, item) ∷ paths) h =
      All-append IsQuiet _ _ (IsQuiet-visit_methods path item (keys item) h.0)
        (IsQuiet-visit_paths paths h.1)
