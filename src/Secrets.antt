-- ===== src/Secrets.antt =====
-- projects/secrets/secrets.service.ts: the secrets of an environment, stored encrypted. The answers
-- of `findAllForEnvironment` come in the order of the table, not in that of their keys.
pub mod Storage
mod Tests
use schematica_api.Common.{
  template, print_nat, String, ℕ, Bool, true, false, not, ◌&&◌, Option, none, some, List, [], ◌∷◌,
  ◌==◌, nat_eq, any, if◌then◌else◌,
}
use schematica_api.Database.{Database, PrismaService}
use schematica_api.Encryption.{Cipher, encrypt, decrypt}
use schematica_api.Entities.{Secret}
use schematica_api.Events.{Event, Done, audit}
use schematica_api.Exceptions.{
  Exception, Result, ok, throw, conflict, not_found, internal_server_error,
}
use schematica_api.Exceptions
use schematica_api.Prisma.Errors.{
  Try, fine, raise, Caught, app_error, attempt, or_not_found, no_mappings, handle_prisma_error,
  try_catch, ◌>>=◌, ◌>>◌,
}
use schematica_api.User.{UserDto}
use schematica_api.Users.{truthy}

pub record CreateSecretDto : Type 0 where
  pub key : String
  pub value : String
  pub description : Option String

pub record UpdateSecretDto : Type 0 where
  pub value : Option String
  pub description : Option String

pub record SecretDto : Type 0 where
  pub id : ℕ
  pub key : String
  pub value : String
  pub description : Option String

abbrev pub dto_of : Secret → String → SecretDto
dto_of s value = record { id = s.id; key = s.key; value = value; description = s.description }

-- `{ id: secretId, environmentId: environmentId }`
abbrev pub is_secret : String → ℕ → Secret → Bool
is_secret environment_id secret_id s = nat_eq s.id secret_id && s.environment_id == environment_id

abbrev pub in_environment : String → Secret → Bool
in_environment environment_id s = s.environment_id == environment_id

-- An exception thrown within a `try` block.
abbrev pub lift {ℓ} : {A : Type ℓ} → Result A → Try A
lift (ok a) = fine a
lift (throw e) = raise (app_error e)

abbrev pub or_keep : Option String → Option String → Option String
or_keep none old = old
or_keep (some s) old = some s

pub missing : ℕ → Exception
missing secret_id =
    not_found (
      template ("Secret with ID '" ∷ print_nat secret_id ∷ "' not found in this environment." ∷ []))

-- NotFoundException is passed on, anything else becomes a 500.
pub not_found_or : String → Caught → Exception
not_found_or message (app_error (not_found m)) = not_found m
not_found_or message e = internal_server_error message

module _ (client : PrismaService) (cipher : Cipher) where
  abbrev pub new_secret : String → CreateSecretDto → ℕ → String → Secret
  new_secret environment_id dto new_id encrypted_value = record {
    id = new_id;
    key = dto.key;
    value = encrypted_value;
    description = dto.description;
    environment_id = environment_id;
  }

  unfoldable pub create :
      Database → String → CreateSecretDto → UserDto → ℕ → String → Result (Done SecretDto)
  create db environment_id dto actor new_id iv =
      Exceptions.◌>>=◌ (encrypt cipher iv dto.value) (λ encrypted_value.
        try_catch
          (do
            secrets ← attempt (
                client.secret.create (any (λ e. e.id == environment_id) db.environments)
                  (new_secret environment_id dto new_id encrypted_value) db.secrets)
            fine (record {
              db = record db { secrets = secrets };
              events = audit actor "SECRET_CREATED" (print_nat new_id) ∷ [];
              value = dto_of (new_secret environment_id dto new_id encrypted_value) dto.value;
            }))
          (λ e. handle_prisma_error e (record no_mappings {
            unique = some (
                conflict (
                  template (
                    "A secret with the key '" ∷ dto.key ∷ "' already exists in this environment."
                    ∷ [])));
          })))

  decrypt_all : List Secret → Result (List SecretDto)
  decrypt_all [] = ok []
  decrypt_all (s ∷ ss) =
      Exceptions.◌>>=◌ (decrypt cipher s.value)
        (λ value. Exceptions.◌>>=◌ (decrypt_all ss) (λ rest. ok (dto_of s value ∷ rest)))

  unfoldable pub find_all_for_environment : Database → String → Result (List SecretDto)
  unfolding decrypt_all
  find_all_for_environment db environment_id =
      elim (decrypt_all (client.secret.find_many (in_environment environment_id) db.secrets)) [
        | ok secrets ↦ ok secrets
        | throw e ↦ throw (internal_server_error "Failed to retrieve secrets.")
      ]

  -- `value ? this.encryptionService.encrypt(value) : undefined`
  pub encrypt_given : Option String → String → Try (Option String)
  encrypt_given none iv = fine none
  encrypt_given (some value) iv =
      if truthy (some value)
      then (do encrypted ← lift (encrypt cipher iv value); fine (some encrypted))
      else fine none

  pub final_value : Option String → Secret → Try String
  final_value (some value) s = fine value
  final_value none s = lift (decrypt cipher s.value)

  abbrev pub patched : Option String → Option String → Secret → Secret
  patched encrypted_value description s = elim encrypted_value [
    | none ↦ record s { description = or_keep description s.description }
    | some v ↦ record s { value = v; description = or_keep description s.description }
  ]

  unfoldable pub update :
      Database → String → ℕ → UpdateSecretDto → UserDto → String → Result (Done SecretDto)
  unfolding encrypt_given final_value missing not_found_or
  update db environment_id secret_id dto actor iv =
      try_catch
        (do
          encrypted_value ← encrypt_given dto.value iv
          result ← attempt (
              client.secret.update_many true (is_secret environment_id secret_id)
                (patched encrypted_value dto.description) db.secrets)
          if nat_eq result.1 0 then raise (app_error (missing secret_id)) else fine tt
          updated_secret ←
              or_not_found (client.secret.find_first (λ s. nat_eq s.id secret_id) result.0)
          value ← final_value dto.value updated_secret
          fine (record {
            db = record db { secrets = result.0 };
            events = audit actor "SECRET_UPDATED" (print_nat updated_secret.id) ∷ [];
            value = dto_of updated_secret value;
          }))
        (not_found_or "Failed to update secret.")

  unfoldable pub remove : Database → String → ℕ → UserDto → Result (Done (Unit {0}))
  unfolding missing not_found_or
  remove db environment_id secret_id actor =
      try_catch
        (do
          fine tt
          if nat_eq (client.secret.delete_many (is_secret environment_id secret_id) db.secrets).1 0
              then raise (app_error (missing secret_id))
              else fine tt
          fine (record {
            db = record db {
              secrets =
                  (client.secret.delete_many (is_secret environment_id secret_id) db.secrets).0;
            };
            events = audit actor "SECRET_DELETED" (print_nat secret_id) ∷ [];
            value = tt;
          }))
        (not_found_or "Failed to delete secret.")
