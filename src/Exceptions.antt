-- ===== src/Exceptions.antt =====
-- The exceptions that the services throw: common/exceptions/*.ts, the exceptions of the web
-- framework, with the status of those that the code does not throw itself, and a plain `Error`.
pub mod Filter
mod Tests
use schematica_api.Common.{String, ℕ, Option, ◌≡◌, ◌⊎◌, inl, inr, refl}

-- locking/locking.service.ts, `Lock`; `expires_at` is a time in milliseconds.
pub record Lock : Type 0 where
  pub user_id : String
  pub username : String
  pub expires_at : ℕ

pub data Exception : Type 0 where
  endpoint_concurrency : Exception
  endpoint_conflict : String → String → Exception
  endpoint_not_found_in_project : String → String → Exception
  endpoint_not_found : String → Exception
  endpoint_status_concurrency : Exception
  note_not_found : String → Exception
  note_permission : Exception
  project_concurrency : Exception
  project_conflict : Option String → Exception
  project_creation_failure : String → Exception
  project_not_found : String → Exception
  resource_locked : Lock → Exception
  spec_circular_dependency : Option String → Exception
  -- with the number of issues
  spec_linting : ℕ → Exception
  spec_validation : String → Exception
  team_conflict : String → Exception
  team_not_found : String → Exception
  user_conflict : String → Exception
  user_not_found : String → Exception
  mock_endpoint_not_found : String → String → Exception
  mock_generation_conflict mock_response_not_found : String → String → String → Exception
  -- `@nestjs/common`
  bad_request unauthorized forbidden not_found conflict internal_server_error : String → Exception
  -- any other `HttpException`, with its status
  http_exception : ℕ → String → Exception
  -- `new Error(message)`, and whatever else is thrown that is no `HttpException`
  error : String → Exception

pub data Result {ℓ} (A : Type ℓ) : Type ℓ where
  ok : A → Result A
  throw : Exception → Result A

-- Statements in sequence: the first exception ends the method.
infixl 5 ◌>>=◌ ◌>>◌
abbrev pub ◌>>=◌ {ℓ κ} : {S : Type ℓ} {T : Type κ} → Result S → (S → Result T) → Result T
throw exception >>= continue = throw exception
ok value >>= continue = continue value

abbrev pub ◌>>◌ {κ} : {T : Type κ} → Result (Unit {0}) → Result T → Result T
throw exception >> continue = throw exception
ok done >> continue = continue

pub Result-cases :
    {A : Type 0} (r : Result A) → ((e : Exception) × (r ≡ throw e)) ⊎ ((a : A) × (r ≡ ok a))
Result-cases (ok a) = inr (a, refl)
Result-cases (throw e) = inl (e, refl)
