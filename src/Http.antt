-- ===== src/Http.antt =====
-- common/constants/http.constants.ts: the methods of an OpenAPI path item.
use schematica_api.Common.{String, Bool, ◌||◌, ◌==◌}

-- `VALID_HTTP_METHODS.has(method)`
unfoldable pub is_valid_method : String → Bool
is_valid_method m =
    m == "get"
    || (m == "put"
        || (m == "post"
            || (m == "delete"
                || (m == "options" || (m == "head" || (m == "patch" || m == "trace"))))))
