-- ===== src/Exceptions/Filter.antt =====
-- common/filters/all-exceptions.filter.ts: what a thrown exception becomes for the client. The
-- texts of the messages are not modelled.
use schematica_api.Common.{
  String, ℕ, Bool, true, false, not, ◌&&◌, Option, none, some, ◌==◌, nat_eq, leb, if◌then◌else◌,
}
use Prim.Native.String
use text.Mathlib.Text.{starts_with}
use schematica_api.Exceptions.{
  Exception, endpoint_concurrency, endpoint_conflict, endpoint_not_found_in_project,
  endpoint_not_found, endpoint_status_concurrency, note_not_found, note_permission,
  project_concurrency, project_conflict, project_creation_failure, project_not_found,
  resource_locked, spec_circular_dependency, spec_linting, spec_validation, team_conflict,
  team_not_found, user_conflict, user_not_found, mock_endpoint_not_found, mock_generation_conflict,
  mock_response_not_found, bad_request, unauthorized, forbidden, not_found, conflict,
  internal_server_error, http_exception, error,
}

-- `exception instanceof HttpException`, with `getStatus()`.
unfoldable pub get_status : Exception → Option ℕ
get_status endpoint_concurrency = some 409
get_status (endpoint_conflict method path) = some 409
get_status (endpoint_not_found_in_project id project_id) = some 404
get_status (endpoint_not_found id) = some 404
get_status endpoint_status_concurrency = some 409
get_status (note_not_found id) = some 404
get_status note_permission = some 403
get_status project_concurrency = some 409
get_status (project_conflict name) = some 409
get_status (project_creation_failure name) = some 500
get_status (project_not_found id) = some 404
get_status (resource_locked lock) = some 409
get_status (spec_circular_dependency details) = some 422
get_status (spec_linting issues) = some 400
get_status (spec_validation message) = some 400
get_status (team_conflict name) = some 409
get_status (team_not_found id) = some 404
get_status (user_conflict name) = some 409
get_status (user_not_found id) = some 404
get_status (mock_endpoint_not_found method path) = some 404
get_status (mock_generation_conflict method path code) = some 409
get_status (mock_response_not_found method path code) = some 404
get_status (bad_request message) = some 400
get_status (unauthorized message) = some 401
get_status (forbidden message) = some 403
get_status (not_found message) = some 404
get_status (conflict message) = some 409
get_status (internal_server_error message) = some 500
get_status (http_exception status message) = some status
get_status (error message) = none

-- `exception instanceof BaseAppException`, with `metaCode`.
unfoldable pub app_meta_code : Exception → Option String
app_meta_code endpoint_concurrency = some "ENDPOINT_CONCURRENCY_CONFLICT"
app_meta_code (endpoint_conflict method path) = some "ENDPOINT_ALREADY_EXISTS"
app_meta_code (endpoint_not_found_in_project id project_id) = some "ENDPOINT_PROJECT_MISMATCH"
app_meta_code (endpoint_not_found id) = some "ENDPOINT_NOT_FOUND"
app_meta_code endpoint_status_concurrency = some "ENDPOINT_STATUS_CONCURRENCY_CONFLICT"
app_meta_code (note_not_found id) = some "NOTE_NOT_FOUND"
app_meta_code note_permission = some "NOTE_PERMISSION_DENIED"
app_meta_code project_concurrency = some "PROJECT_CONCURRENCY_CONFLICT"
app_meta_code (project_conflict name) = some "PROJECT_NAME_ALREADY_EXISTS"
app_meta_code (project_creation_failure name) = some "PROJECT_CREATION_FAILED"
app_meta_code (project_not_found id) = some "PROJECT_NOT_FOUND"
app_meta_code (resource_locked lock) = some "RESOURCE_LOCKED"
app_meta_code (spec_circular_dependency details) = some "SPEC_CIRCULAR_DEPENDENCY"
app_meta_code (spec_linting issues) = some "SPEC_LINTING_FAILED"
app_meta_code (spec_validation message) = some "SPEC_VALIDATION_FAILED"
app_meta_code (team_conflict name) = some "TEAM_NAME_ALREADY_EXISTS"
app_meta_code (team_not_found id) = some "TEAM_NOT_FOUND"
app_meta_code (user_conflict name) = some "USERNAME_ALREADY_EXISTS"
app_meta_code (user_not_found id) = some "USER_NOT_FOUND"
app_meta_code (mock_endpoint_not_found method path) = some "MOCK_ENDPOINT_NOT_FOUND"
app_meta_code (mock_generation_conflict method path code) = some "MOCK_GENERATION_CONFLICT"
app_meta_code (mock_response_not_found method path code) = some "MOCK_RESPONSE_NOT_FOUND"
app_meta_code _ = none

unfoldable pub status_to_meta_code : ℕ → String
status_to_meta_code status =
    if nat_eq status 400
    then "BAD_REQUEST"
    else if nat_eq status 401
    then "UNAUTHORIZED"
    else if nat_eq status 403
    then "FORBIDDEN"
    else if nat_eq status 404
    then "NOT_FOUND"
    else if nat_eq status 409
    then "CONFLICT"
    else if nat_eq status 413
    then "PAYLOAD_TOO_LARGE"
    else if nat_eq status 500
    then "INTERNAL_SERVER_ERROR"
    else "UNHANDLED_HTTP_EXCEPTION"

pub record ParsedException : Type 0 where
  pub http_status : ℕ
  pub meta_code : String

unfoldable pub parse_exception : Exception → ParsedException
parse_exception e = elim (get_status e) [
  | none ↦ record { http_status = 500; meta_code = "INTERNAL_SERVER_ERROR" }
  | some status ↦ elim (app_meta_code e) [
    | none ↦ record { http_status = status; meta_code = status_to_meta_code status }
    | some code ↦ record { http_status = status; meta_code = code }
  ]
]

-- What the filter sends: the page of the single-page application, or an error body with its status;
-- an error of the server is logged.
pub data Reply : Type 0 where
  index_html : Reply
  error_body : ParsedException → Bool → Reply

handle_api_error : Exception → Reply
handle_api_error e =
    let parsed = parse_exception e in error_body parsed (leb 500 parsed.http_status)

-- `exception instanceof NotFoundException`: the framework's class, and not the exceptions of
-- common/exceptions, which have another base class.
unfoldable pub is_not_found_exception : Exception → Bool
is_not_found_exception (not_found message) = true
is_not_found_exception _ = false

unfoldable pub catch_exception : String → String → Exception → String → Reply
unfolding handle_api_error
catch_exception global_prefix node_env e url =
    if is_not_found_exception e
      && (not (starts_with url "/socket.io")
          && (not (node_env == "test") && not (starts_with url (String.◌++◌ "/" global_prefix))))
    then index_html
    else handle_api_error e
