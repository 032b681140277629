-- ===== src/MockServer/Tests.antt =====
-- The choice of an operation and of a response on small documents.
use schematica_api.Common.{String, Bool, true, false, ◌≡◌, ◌==◌, refl, Option, some}
use schematica_api.Exceptions.{ok}
use schematica_api.Json.{Fields, end, field, obj, get_field, has_field, entries}
use schematica_api.Http.{is_valid_method}
use schematica_api.MockServer.{
  Selected, own, inherited, is_inherited, select_response, find_matching_operation, find_matching,
  parsable_path,
}
use schematica_api.MockServer.Selection.{IsEntry, select_response-IsEntry}

abbrev responses : Fields
responses = field "201" (obj end) (field "404" (obj end) end)

abbrev not_found_response : Selected
not_found_response = record { response = some (own (obj end)); status_code = "404" }

choice : select_response responses (some "404") ≡ ok not_found_response
unfolding select_response get_field has_field
choice = refl

select_response-IsEntry_example :
    IsEntry responses not_found_response
    × ((status : String)
        → ◌≡◌ {A = Option String} (some "404") (some status)
        → (status == "") ≡ false
        → "404" ≡ status)
select_response-IsEntry_example =
    select_response-IsEntry responses (some "404") not_found_response choice

-- Two paths that match the request; the first has no operation for its method.
abbrev list_items : Fields
list_items = field "responses" (obj responses) end

abbrev document : Fields
document =
    field "paths"
      (obj (
        field "/items" (obj (field "post" (obj end) end))
          (field "/{name}" (obj (field "get" (obj list_items) end)) end)))
      end

abbrev any_path : String → String → Bool
any_path parsable request_path = true

found_test : find_matching_operation any_path document "get" "/items" ≡ some list_items
unfolding find_matching_operation find_matching get_field has_field is_valid_method parsable_path
    entries
found_test = refl

-- A status that names a member of every object is answered with that member.
inherited_test :
    select_response responses (some "constructor")
    ≡ ok (record { response = some inherited; status_code = "constructor" })
unfolding select_response get_field is_inherited
inherited_test = refl
