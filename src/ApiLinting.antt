-- ===== src/ApiLinting.antt =====
-- api-linting/api-linting.service.ts. The linter (Spectral) is a parameter: its issues for a
-- document, or none where it fails. A document is a tree, so it has no circular reference.
use schematica_api.Common.{Bool, true, false, Option, none, some, List, keep}
use schematica_api.Exceptions.{Result, ok, throw, internal_server_error}
use schematica_api.Json.{Fields}

pub data Severity : Type 0 where
  error warning information hint : Severity

abbrev pub is_error : Severity → Bool
is_error error = true
is_error _ = false

abbrev pub Linter : Type 0
Linter = Fields → Option (List Severity)

unfoldable pub lint_spec : Linter → Fields → Result (List Severity)
lint_spec spectral spec = elim (spectral spec) [
  | none ↦ throw (internal_server_error "Failed to lint API specification")
  | some issues ↦ ok (keep is_error issues)
]
