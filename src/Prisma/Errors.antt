-- ===== src/Prisma/Errors.antt =====
-- common/utils/prisma-error.util.ts, and the `try` blocks of the services: a body that calls the
-- database ends in a value, in an error of the client, or in an exception of the program.
use schematica_api.Common.{◌≡◌, ◌⊎◌, inl, inr, refl, Option, none, some}
use schematica_api.Exceptions.{Exception, internal_server_error, Result, ok, throw}

-- common/constants/prisma-error-codes.constants.ts, and any other code.
pub data PrismaErrorCode : Type 0 where
  unique_constraint_failed foreign_key_constraint_failed record_not_found : PrismaErrorCode
  other_code : PrismaErrorCode

pub data Outcome {ℓ} (A : Type ℓ) : Type ℓ where
  done : A → Outcome A
  failed : PrismaErrorCode → Outcome A

-- What a `catch` clause receives.
pub data Caught : Type 0 where
  prisma_error : PrismaErrorCode → Caught
  app_error : Exception → Caught

pub data Try {ℓ} (A : Type ℓ) : Type ℓ where
  fine : A → Try A
  raise : Caught → Try A

infixl 5 ◌>>=◌ ◌>>◌
abbrev pub ◌>>=◌ {ℓ κ} : {A : Type ℓ} {B : Type κ} → Try A → (A → Try B) → Try B
fine a >>= f = f a
raise e >>= f = raise e

abbrev pub ◌>>◌ {ℓ} : {B : Type ℓ} → Try (Unit {0}) → Try B → Try B
m >> k = m >>= λ _. k

abbrev pub attempt {ℓ} : {A : Type ℓ} → Outcome A → Try A
attempt (done a) = fine a
attempt (failed code) = raise (prisma_error code)

-- The `OrThrow` forms of the finders.
abbrev pub or_not_found {ℓ} : {A : Type ℓ} → Option A → Try A
or_not_found none = raise (prisma_error record_not_found)
or_not_found (some a) = fine a

abbrev pub or_raise {ℓ} : {A : Type ℓ} → Option A → Exception → Try A
or_raise none e = raise (app_error e)
or_raise (some a) e = fine a

-- The exceptions for the codes, and the default.
pub record Mappings : Type 0 where
  pub unique : Option Exception
  pub foreign_key : Option Exception
  pub missing : Option Exception
  pub default : Option Exception

abbrev pub no_mappings : Mappings
no_mappings = record { unique = none; foreign_key = none; missing = none; default = none }

abbrev pub specific_error : Mappings → PrismaErrorCode → Option Exception
specific_error m unique_constraint_failed = m.unique
specific_error m foreign_key_constraint_failed = m.foreign_key
specific_error m record_not_found = m.missing
specific_error m other_code = none

abbrev pub unexpected : Exception
unexpected = internal_server_error "An unexpected database error occurred."

abbrev or_default : Option Exception → Exception
or_default none = unexpected
or_default (some e) = e

unfoldable pub handle_prisma_error : Caught → Mappings → Exception
handle_prisma_error (prisma_error code) m = elim (specific_error m code) [
  | none ↦ or_default m.default
  | some e ↦ e
]
handle_prisma_error (app_error e) m = or_default m.default

-- `try { … } catch (error) { handler }`
abbrev pub try_catch {ℓ} : {A : Type ℓ} → Try A → (Caught → Exception) → Result A
try_catch (fine a) handler = ok a
try_catch (raise e) handler = throw (handler e)

pub Try-cases {ℓ} :
    {A : Type ℓ} (t : Try A) → ((e : Caught) × (t ≡ raise e)) ⊎ ((a : A) × (t ≡ fine a))
Try-cases (fine a) = inr (a, refl)
Try-cases (raise e) = inl (e, refl)

-- What a composition that succeeds has gone through.
pub fine-bind {ℓ κ} :
    {A : Type ℓ} {B : Type κ} (t : Try A) (f : A → Try B) (b : B)
    → (t >>= f) ≡ fine b
    → (a : A) × (t ≡ fine a) × (f a ≡ fine b)
fine-bind (fine a) f b h = (a, refl, h)
fine-bind (raise e) f b h = cc
