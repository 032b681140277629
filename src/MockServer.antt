-- ===== src/MockServer.antt =====
-- mock-server/mock-server.service.ts: an answer made up from the document of a project. The path
-- matcher (path-to-regexp), the resolution of references and the generator of values are parameters;
-- the locale only chooses the generator.
pub mod Matching
pub mod Selection
mod Tests
use Prim.Native.Char.{Char, code}
use Prim.Native.String
use schematica_api.Access.{can_view_project}
use schematica_api.Common.{
  String, ℕ, Bool, true, false, not, ◌&&◌, ◌||◌, Option, none, some, List, [], ◌∷◌, find, any, ◌==◌,
  nat_eq, leb, if◌then◌else◌, to_lower_case, template, parse_int, ◌≡◌, refl,
}
use schematica_api.Database.{Database, PrismaService}
use schematica_api.Exceptions
use schematica_api.Exceptions.{
  Exception, Result, ok, throw, bad_request, project_not_found, mock_endpoint_not_found,
  mock_response_not_found, mock_generation_conflict, internal_server_error, error, ◌>>=◌, ◌>>◌,
}
use schematica_api.Guards.{given, require, found}
use schematica_api.Http.{is_valid_method}
use schematica_api.Json.{
  Value, null, bool, num, str, arr, obj, Fields, end, get_field, has_field, entries, keys,
}
use schematica_api.Projects.{get_open_api_spec}
use schematica_api.User.{UserDto}
use schematica_api.Users.{truthy}
use text.Mathlib.Text.{starts_with}

pub record MockResponse : Type 0 where
  pub body : Value
  pub status_code : ℕ

-- What stands under a key of an object: a value of its own, or a member of `Object.prototype`.
pub data Response : Type 0 where
  own : Value → Response
  inherited : Response

pub record Selected : Type 0 where
  pub response : Option Response
  pub status_code : String

-- `{([^}]+)}` becomes `:$1`: `inside` holds what was read since the brace.
abbrev is_open : Char → Bool
is_open c = nat_eq (code c) 123

abbrev is_close : Char → Bool
is_close c = nat_eq (code c) 125

replace_braces : Option String → String → String
replace_braces none Prim.Native.String.[] = ""
replace_braces (some inside) Prim.Native.String.[] = template ("{" ∷ inside ∷ [])
replace_braces none (Prim.Native.String.◌∷◌ c s) =
    let opened = replace_braces (some "") s in
    let rest = replace_braces none s in if is_open c then opened else Prim.Native.String.◌∷◌ c rest
replace_braces (some inside) (Prim.Native.String.◌∷◌ c s) =
    let closed = replace_braces none s in
    let more =
      replace_braces
        (some (Prim.Native.String.◌++◌ inside (Prim.Native.String.◌∷◌ c Prim.Native.String.[])))
        s in
    if is_close c
    then if inside == ""
      then template ("{}" ∷ closed ∷ [])
      else template (":" ∷ inside ∷ closed ∷ [])
    else more

unfoldable pub parsable_path : String → String
unfolding replace_braces
parsable_path = replace_braces none

parsable_test : parsable_path "/items/{id}/x" ≡ "/items/:id/x"
unfolding parsable_path
parsable_test = refl

-- JavaScript's falsy values.
abbrev pub is_truthy : Value → Bool
is_truthy null = false
is_truthy (bool b) = b
is_truthy (num n) = not (n == "0")
is_truthy (str s) = not (s == "")
is_truthy _ = true

-- An operation of a path item: an object without a reference.
abbrev pub operation_in : String → Value → Option Fields
operation_in method (obj item) =
    if is_valid_method method
    then elim (get_field method item) [
      | some (obj operation) ↦ if has_field "$ref" operation then none else some operation
      | _ ↦ none
    ]
    else none
operation_in method _ = none

-- `matches` is the matcher of a parsable path, applied to the path of the request.
unfoldable pub find_matching :
    (String → String → Bool) → String → String → List (String × Value) → Option Fields
unfolding parsable_path
find_matching matches method request_path [] = none
find_matching matches method request_path ((path, item) ∷ paths) =
    let rest = find_matching matches method request_path paths in
    if matches (parsable_path path) request_path
    then elim (operation_in method item) [ none ↦ rest | some operation ↦ some operation ]
    else rest

unfoldable pub find_matching_operation :
    (String → String → Bool) → Fields → String → String → Option Fields
unfolding find_matching
find_matching_operation matches spec method request_path = elim (get_field "paths" spec) [
  | some (obj paths) ↦ find_matching matches method request_path (entries paths)
  | _ ↦ none
]

-- `'$ref' in response`, which throws where the response is no object or array.
abbrev pub has_ref : Value → Bool
has_ref (obj r) = has_field "$ref" r
has_ref _ = false

abbrev pub is_container : Value → Bool
is_container (obj r) = true
is_container (arr items) = true
is_container _ = false

abbrev pub response_of : Value → Result (Option Response)
response_of v =
    if is_container v
    then if has_ref v then ok none else ok (some (own v))
    else throw (error "Cannot use 'in' operator to search for '$ref'")

-- The entry of a status, if it is truthy.
abbrev pub entry : Fields → String → Option Value
entry responses status = elim (get_field status responses) [
  | none ↦ none
  | some v ↦ if is_truthy v then some v else none
]

abbrev pub is_success : String → Bool
is_success status = starts_with status "2" && not (status == "204")

abbrev pub selected : String → Value → Result Selected
selected status v = response_of v >>= (λ r. ok (record { response = r; status_code = status }))

-- The members of `Object.prototype`: functions, and `__proto__`, the prototype itself.
unfoldable pub is_inherited : String → Bool
is_inherited key =
    any (λ name. name == key)
      ("constructor" ∷ "toString" ∷ "toLocaleString" ∷ "valueOf" ∷ "hasOwnProperty"
        ∷ "isPrototypeOf" ∷ "propertyIsEnumerable" ∷ "__proto__" ∷ "__defineGetter__"
        ∷ "__defineSetter__" ∷ "__lookupGetter__" ∷ "__lookupSetter__" ∷ [])

-- The answer for a status that was asked for: `responses[status]` also reads what is inherited.
abbrev pub select_requested : Fields → String → Result Selected
select_requested responses status = elim (get_field status responses) [
  | none ↦
      if is_inherited status
      then ok (record { response = some inherited; status_code = status })
      else ok (record { response = none; status_code = status })
  | some v ↦
      if is_truthy v
      then selected status v
      else ok (record { response = none; status_code = status })
]

abbrev pub select_fallback : Fields → Result Selected
select_fallback responses = elim (entry responses "204") [
  | some v ↦ selected "204" v
  | none ↦ elim (entry responses "default") [
    | some v ↦ selected "default" v
    | none ↦ ok (record { response = none; status_code = "200" })
  ]
]

abbrev pub success_value : Fields → String → Value
success_value responses status = elim (get_field status responses) [ none ↦ null | some v ↦ v ]

abbrev pub select_default : Fields → Result Selected
select_default responses = elim (find is_success (keys responses)) [
  | some status ↦
      if status == ""
      then select_fallback responses
      else selected status (success_value responses status)
  | none ↦ select_fallback responses
]

unfoldable pub select_response : Fields → Option String → Result Selected
select_response responses none = select_default responses
select_response responses (some status) =
    if status == "" then select_default responses else select_requested responses status

-- `response.content?.['application/json']?.schema`, none where it is falsy.
abbrev field_of : String → Option Value → Option Value
field_of name (some (obj fs)) = get_field name fs
field_of name _ = none

pub get_schema_from_response : Response → Option Value
get_schema_from_response inherited = none
get_schema_from_response (own response) =
    elim (field_of "schema" (field_of "application/json" (field_of "content" (some response)))) [
      | none ↦ none
      | some v ↦ if is_truthy v then some v else none
    ]

-- `/^\d{3}$/`
abbrev is_digit : Char → Bool
is_digit c = leb 48 (code c) && leb (code c) 57

is_three_digits : String → Bool
is_three_digits
      (Prim.Native.String.◌∷◌ a
        (Prim.Native.String.◌∷◌ b (Prim.Native.String.◌∷◌ c Prim.Native.String.[]))) =
    is_digit a && (is_digit b && is_digit c)
is_three_digits _ = false

numeric_status : String → ℕ
unfolding is_three_digits
numeric_status status =
    if is_three_digits status
    then elim (parse_int status) [ none ↦ 200 | some i ↦ i.magnitude ]
    else 200

-- The body for a schema: the generator's, or null without a schema.
abbrev pub mock_body : (Value → Option Value) → Option Value → Result Value
mock_body generate none = ok null
mock_body generate (some schema) =
    found (generate schema) (internal_server_error "Could not generate mock response body.")

module _ (client : PrismaService) where
  unfoldable pub generate_mock_response :
      (Fields → Result Fields)
      → (String → String → Bool)
      → (Value → Option Value)
      → Database
      → Option String
      → String
      → String
      → UserDto
      → Option String
      → Result MockResponse
  unfolding numeric_status get_schema_from_response
  generate_mock_response dereference matches generate db project_id method path user requested = do
    id ← given project_id (bad_request "The \"X-Mock-Project-ID\" header is required.")
    require (can_view_project db.grants client.project user id) (project_not_found id)
    assembled ← get_open_api_spec client db id user
    spec ← dereference assembled
    operation ←
        found (find_matching_operation matches spec (to_lower_case method) path)
          (mock_endpoint_not_found method path)
    responses ←
        found (field_of "responses" (some (obj operation))) (mock_endpoint_not_found method path)
    require (is_truthy responses) (mock_endpoint_not_found method path)
    chosen ← select_response (elim responses [ obj fs ↦ fs | _ ↦ end ]) requested
    response ← found chosen.response (mock_response_not_found method path chosen.status_code)
    let schema = get_schema_from_response response
    require
        (not (
          elim schema [ none ↦ true | some v ↦ false ]
          && (starts_with chosen.status_code "2" && not (chosen.status_code == "204"))))
        (mock_generation_conflict method path chosen.status_code)
    body ← mock_body generate schema
    ok (record { body = body; status_code = numeric_status chosen.status_code })
