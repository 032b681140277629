-- ===== src/Secrets/Tests.antt =====
-- Secrets of a small state.
use schematica_api.Common.{◌≡◌, refl, none, [], ◌∷◌, ◌++◌, print_nat}
use schematica_api.Database.{memory_client, memory_client-IsPrisma}
use schematica_api.Encryption.{decrypt, encrypt}
use schematica_api.Encryption.RoundTrip.{has_colon}
use schematica_api.Encryption.Clear.{clear, clear-IsCipher}
use schematica_api.Entities.{Secret}
use schematica_api.Events.{Done, audit}
use schematica_api.Exceptions.{ok}
use schematica_api.Samples.{alice, db}
use schematica_api.Secrets.{CreateSecretDto, SecretDto, dto_of, create, new_secret}
use schematica_api.Secrets.Storage.{decrypt-create}

abbrev dto : CreateSecretDto
dto = record { key = "API_KEY"; value = "secret"; description = none }

abbrev stored : Secret
stored = new_secret memory_client clear "v1" dto 7 "a1:ff:secret"

abbrev created_done : Done SecretDto
created_done = record {
  db = record db { secrets = stored ∷ [] };
  events = audit alice "SECRET_CREATED" "7" ∷ [];
  value = dto_of stored "secret";
}

created : create memory_client clear db "v1" dto alice 7 "a1" ≡ ok created_done
unfolding create encrypt has_colon print_nat
created = refl

decrypt-create_example :
    (s : Secret) × (dto_of stored "secret" ≡ dto_of s "secret")
    × ((created_done.db).secrets ≡ db.secrets ++ s ∷ [])
    × (decrypt clear s.value ≡ ok "secret")
unfolding has_colon
decrypt-create_example =
    decrypt-create memory_client memory_client-IsPrisma clear clear-IsCipher db "v1" dto alice 7
      "a1" created_done refl refl refl created
