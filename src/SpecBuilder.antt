-- ===== src/SpecBuilder.antt =====
-- projects/spec-builder/openapi-spec.builder.ts: the OpenAPI document of a project, from its
-- endpoints and schema components. While they are filled, `paths` and its items are maps.
pub mod Paths
mod Seen
pub mod Quiet
pub mod RoundTrip
mod Tests
use schematica_api.Common.{
  String, Option, none, some, List, [], ◌∷◌, ◌==◌, if◌then◌else◌, to_lower_case,
}
use schematica_api.Common.Map
use schematica_api.Entities.{Endpoint, SchemaComponent, Project}
use schematica_api.Json.{
  Value, null, str, arr, obj, Items, nil, cons, Fields, end, field, set_field,
}

-- `if (!paths[endpoint.path]) paths[endpoint.path] = {}`, and the assignment to the method's key.
unfoldable pub add_endpoint : Endpoint → List (String × Fields) → List (String × Fields)
add_endpoint e paths =
    let item : Fields = elim (Map.get e.path paths) [ none ↦ end | some fs ↦ fs ] in
    Map.set e.path (set_field (to_lower_case e.method) e.operation item) paths

unfoldable pub build_paths : List Endpoint → List (String × Fields) → List (String × Fields)
build_paths [] paths = paths
build_paths (e ∷ es) paths = build_paths es (add_endpoint e paths)

unfoldable pub build_schemas : List SchemaComponent → Fields → Fields
build_schemas [] schemas = schemas
build_schemas (c ∷ cs) schemas = build_schemas cs (set_field c.name c.schema schemas)

unfoldable pub paths_object : List (String × Fields) → Fields
paths_object [] = end
paths_object ((path, item) ∷ paths) = field path (obj item) (paths_object paths)

-- A missing `description` is null in the database, and so in the document.
text_or_null : Option String → Value
text_or_null none = null
text_or_null (some s) = str s

-- An array with an element is kept; anything else becomes the empty array.
servers_array : Option Value → Value
servers_array (some (arr (cons v vs))) = arr (cons v vs)
servers_array _ = arr nil

-- `...(Object.keys(schemaComponents).length > 0 && { components: { schemas } })`
components_part : Fields → Fields
components_part end = end
components_part (field k v fs) =
    field "components" (obj (field "schemas" (obj (field k v fs)) end)) end

unfoldable pub build : Project → List Endpoint → List SchemaComponent → Fields
unfolding build_paths build_schemas paths_object text_or_null servers_array components_part
build project endpoints components = field "openapi" (str "3.0.0") (
    field "info"
      (obj (
        field "title" (str project.name) (
          field "description" (text_or_null project.description)
            (field "version" (str "1.0.0") end))))
      (field "servers" (servers_array project.servers) (
        field "paths" (obj (paths_object (build_paths endpoints [])))
          (components_part (build_schemas components end)))))
