-- ===== src/Exceptions/Tests.antt =====
-- Answers of the filter.
use schematica_api.Common.{false, ◌≡◌, refl}
use schematica_api.Exceptions.{project_not_found, not_found, http_exception}
use schematica_api.Exceptions.Filter.{
  error_body, index_html, catch_exception, parse_exception, get_status, app_meta_code,
  status_to_meta_code, is_not_found_exception,
}

project_test :
    catch_exception "api" "production" (project_not_found "p1") "/api/projects/p1"
    ≡ error_body (record { http_status = 404; meta_code = "PROJECT_NOT_FOUND" }) false
unfolding catch_exception parse_exception get_status app_meta_code is_not_found_exception
project_test = refl

page_test : catch_exception "api" "production" (not_found "Cannot GET /x") "/x" ≡ index_html
unfolding catch_exception is_not_found_exception
page_test = refl

too_large_test :
    catch_exception "api" "production" (http_exception 413 "Payload Too Large") "/api/profile"
    ≡ error_body (record { http_status = 413; meta_code = "PAYLOAD_TOO_LARGE" }) false
unfolding catch_exception parse_exception get_status app_meta_code status_to_meta_code
    is_not_found_exception
too_large_test = refl
