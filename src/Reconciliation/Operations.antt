-- ===== src/Reconciliation/Operations.antt =====
-- projects/spec-reconciliation: the helpers on one operation, its key and its metadata
-- (`createEndpointKey`, `getComparableOperation`, `buildUpdatedOperation`, `buildNewOperation` and
-- `isEndpointAppMetadata`).
use Prim.Native.String
use schematica_api.Common.{
  String, Bool, true, false, not, ◌&&◌, none, some, if◌then◌else◌, to_lower_case,
}
use schematica_api.Entities.{Endpoint}
use schematica_api.Json.{
  Value, null, str, arr, obj, Fields, end, field, get_field, set_field, omit_field, has_field,
  is_string,
}
use schematica_api.User.{UserDto}

abbrev pub metadata_key : String
metadata_key = "x-app-metadata"

unfoldable pub create_endpoint_key : String → String → String
create_endpoint_key method path = String.◌++◌ (to_lower_case method) (String.◌++◌ ":" path)

-- `name in obj && typeof obj[name] === 'string'`
has_string : String → Fields → Bool
has_string name fs = elim (get_field name fs) [ none ↦ false | some v ↦ is_string v ]

unfoldable pub is_endpoint_app_metadata : Value → Bool
unfolding has_string
is_endpoint_app_metadata (obj fs) =
    has_string "createdBy" fs
    && (has_string "createdAt" fs && (has_string "lastEditedBy" fs && has_string "lastEditedAt" fs))
is_endpoint_app_metadata _ = false

unfoldable pub get_comparable_operation : Value → Fields
get_comparable_operation (obj fs) = omit_field metadata_key fs
get_comparable_operation _ = end

metadata : String → String → String → String → Fields
metadata created_by created_at last_edited_by last_edited_at = field "createdBy" (str created_by) (
    field "createdAt" (str created_at)
      (field "lastEditedBy" (str last_edited_by) (field "lastEditedAt" (str last_edited_at) end)))

-- `newOperation['x-app-metadata'] = metadata`; on an array the property is no part of the JSON.
unfoldable pub set_metadata : Value → Fields → Value
set_metadata (obj fs) meta = obj (set_field metadata_key (obj meta) fs)
set_metadata v meta = v

-- `opRecord?.['x-app-metadata'] ?? null`
unfoldable pub existing_metadata : Value → Value
existing_metadata (obj fs) = elim (get_field metadata_key fs) [ none ↦ null | some v ↦ v ]
existing_metadata _ = null

-- The metadata to keep, where it passes `isEndpointAppMetadata`, and a default where not.
unfoldable pub base_metadata : Value → Endpoint → UserDto → String → Fields
unfolding metadata
base_metadata (obj fs) existing user now =
    if is_endpoint_app_metadata (obj fs)
    then fs
    else metadata "unknown" existing.created_at user.username now
base_metadata _ existing user now = metadata "unknown" existing.created_at user.username now

unfoldable pub build_updated_operation : Value → Endpoint → UserDto → String → Value
unfolding set_metadata existing_metadata base_metadata
build_updated_operation incoming existing user now = set_metadata incoming (
    set_field "lastEditedAt" (str now) (
      set_field "lastEditedBy" (str user.username)
        (base_metadata (existing_metadata existing.operation) existing user now)))

unfoldable pub build_new_operation : Value → UserDto → String → Value
unfolding set_metadata metadata
build_new_operation incoming user now =
    set_metadata incoming (metadata user.username now user.username now)

-- `typeof operation !== 'object' || operation === null || '$ref' in operation` skips the entry.
unfoldable pub is_operation : Value → Bool
is_operation (obj fs) = not (has_field "$ref" fs)
is_operation (arr xs) = true
is_operation _ = false
