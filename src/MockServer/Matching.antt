-- ===== src/MockServer/Matching.antt =====
-- Which operation of a document answers a request.
use schematica_api.Common.{
  String, Bool, true, false, ◌≡◌, Option, none, some, List, ◌∷◌, ◌++◌, All, if◌then◌else◌,
}
use schematica_api.Http.{is_valid_method}
use schematica_api.Json.{Value, Fields, obj, get_field, has_field, entries}
use schematica_api.MockServer.{parsable_path, operation_in, find_matching}

-- The operation that stands in a field, unless it is a reference.
abbrev unreferenced : Option Value → Option Fields
unreferenced (some (obj operation)) = if has_field "$ref" operation then none else some operation
unreferenced _ = none

-- The item is an object that has the operation under a valid method.
abbrev pub HasOperation : String → Value → Fields → Type 0
HasOperation method value operation =
    (is_valid_method method ≡ true)
    × ((item : Fields) × (value ≡ obj item)
        × (get_field method item ≡ some (obj operation))
        × (has_field "$ref" operation ≡ false))

module _ (matches : String → String → Bool) (method request_path : String) where
  -- The path matches the request, and its item has the operation, which is no reference.
  abbrev pub Serves : String × Value → Fields → Type 0
  Serves (path, value) operation =
      (matches (parsable_path path) request_path ≡ true) × HasOperation method value operation

  -- The first path of the list that serves the request does so with the operation.
  abbrev pub IsServedBy : List (String × Value) → Fields → Type 0
  IsServedBy paths operation =
      (before : List (String × Value)) × (after : List (String × Value)) × (path : String × Value)
      × (paths ≡ before ++ path ∷ after)
      × Serves path operation
      × All (λ earlier. (other : Fields) → ¬ Serves earlier other) before

  abbrev served : String × Value → Option Fields
  served (path, value) =
      if matches (parsable_path path) request_path then operation_in method value else none

  abbrev found_at : Option Value → Option Fields
  found_at (some (obj paths)) = find_matching matches method request_path (entries paths)
  found_at _ = none
