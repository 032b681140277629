-- ===== src/Secrets/Storage.antt =====
-- Which secrets the operations read and change.
use schematica_api.Common.{
  print_nat, String, ℕ, false, not, ◌≡◌, ◌≢◌, ◌⊎◌, inl, inr, refl, eq_iff, arith, List, [], ◌∷◌,
  ◌++◌, any, keep, length, ◌==◌, nat_eq, Bool-cases,
}
use schematica_api.Database.{Database, PrismaService, IsPrisma, memory_client, for_every_client}
use schematica_api.Encryption.{Cipher, encrypt, decrypt}
use schematica_api.Encryption.RoundTrip.{IsCipher, has_colon, decrypt-encrypt}
use schematica_api.Entities.{Secret, secret_clash}
use schematica_api.Events.{Done, audit}
use schematica_api.Exceptions.{Exception, Result, ok, throw}
use schematica_api.Prisma.{patch_all}
use schematica_api.Secrets.{
  CreateSecretDto, SecretDto, dto_of, is_secret, in_environment, new_secret, create, remove,
  missing, not_found_or,
}
use schematica_api.User.{UserDto}

pub Result-cases {ℓ} :
    {A : Type ℓ} (r : Result A) → ((e : Exception) × (r ≡ throw e)) ⊎ ((a : A) × (r ≡ ok a))
Result-cases (ok a) = inr (a, refl)
Result-cases (throw e) = inl (e, refl)

-- The rows of another environment are left alone.
keep-keep_other :
    (environment_id other : String) (secret_id : ℕ) (t : List Secret)
    → other ≢ environment_id
    → keep (in_environment other) (keep (λ s. not (is_secret environment_id secret_id s)) t)
      ≡ keep (in_environment other) t
keep-keep_other environment_id other secret_id [] h = refl
keep-keep_other environment_id other secret_id (s ∷ t) h = ground (
  arith,
  keep-keep_other environment_id other secret_id t h,
  eq_iff s.environment_id environment_id,
  eq_iff s.environment_id other,
)

-- An update of the matched rows leaves the others alone, and the matched rows in their environment.
keep-patch_other :
    (environment_id other : String) (secret_id : ℕ) (f : Secret → Secret) (t : List Secret)
    → ((s : Secret) → (f s).environment_id ≡ s.environment_id)
    → other ≢ environment_id
    → keep (in_environment other) (patch_all (is_secret environment_id secret_id) f t)
      ≡ keep (in_environment other) t
keep-patch_other environment_id other secret_id f [] stays h = refl
keep-patch_other environment_id other secret_id f (s ∷ t) stays h =
    elim (Bool-cases (is_secret environment_id secret_id s)) [
      | inl hit ↦ ground (
        arith,
        hit,
        keep-patch_other environment_id other secret_id f t stays h,
        stays s,
        eq_iff s.environment_id environment_id,
        eq_iff s.environment_id other,
      )
      | inr miss ↦ ground (arith, miss, keep-patch_other environment_id other secret_id f t stays h)
    ]

module _ (cipher : Cipher) (db : Database) (environment_id other : String) (secret_id : ℕ)
    (actor : UserDto) (apart : other ≢ environment_id) where
  abbrev removed : Done (Unit {0})
  removed = record {
    db = record db { secrets = keep (λ s. not (is_secret environment_id secret_id s)) db.secrets };
    events = audit actor "SECRET_DELETED" (print_nat secret_id) ∷ [];
    value = tt;
  }

  removed_in_memory :
      (d : Done (Unit {0}))
      → remove memory_client cipher db environment_id secret_id actor ≡ ok d
      → keep (in_environment other) (d.db).secrets ≡ keep (in_environment other) db.secrets
  unfolding remove missing not_found_or
  removed_in_memory d h =
      elim (Bool-cases (nat_eq (length (keep (is_secret environment_id secret_id) db.secrets)) 0)) [
        | inl none_there ↦ ground (arith, none_there)
        | inr there ↦
            let same : ok removed ≡ ok d = ground (arith, there, h) in
            let same_d : removed ≡ d = cc in
            rw (← same_d) (keep-keep_other environment_id other secret_id db.secrets apart)
      ]

-- A deletion that succeeds changes no secret of another environment, whatever the id.
pub remove_isolated :
    (client : PrismaService)
    → IsPrisma client
    → (cipher : Cipher) (db : Database) (environment_id other : String) (secret_id : ℕ)
      (actor : UserDto) (d : Done (Unit {0}))
    → other ≢ environment_id
    → remove client cipher db environment_id secret_id actor ≡ ok d
    → keep (in_environment other) (d.db).secrets ≡ keep (in_environment other) db.secrets
remove_isolated client laws cipher db environment_id other secret_id actor d apart =
    for_every_client
      (λ c.
        remove c cipher db environment_id secret_id actor ≡ ok d
        → keep (in_environment other) (d.db).secrets ≡ keep (in_environment other) db.secrets)
      client laws (removed_in_memory cipher db environment_id other secret_id actor apart d)

module _ (cipher : Cipher) (laws : IsCipher cipher) (db : Database) (environment_id : String)
    (dto : CreateSecretDto) (actor : UserDto) (new_id : ℕ) (iv : String)
    (plain_iv : has_colon iv ≡ false) (some_iv : (iv == "") ≡ false)
    (some_value : (dto.value == "") ≡ false) where
  abbrev row : String → Secret
  row = new_secret memory_client cipher environment_id dto new_id

  created_in_memory :
      (d : Done SecretDto)
      → create memory_client cipher db environment_id dto actor new_id iv ≡ ok d
      → (s : Secret) × (d.value ≡ dto_of s dto.value)
        × ((d.db).secrets ≡ db.secrets ++ s ∷ [])
        × (decrypt cipher s.value ≡ ok dto.value)
  unfolding create
  created_in_memory d h = elim (Result-cases (encrypt cipher iv dto.value)) [
    | inl (e, failed) ↦ ground (arith, failed)
    | inr (message, encrypts) ↦
        elim (Bool-cases (any (λ e. e.id == environment_id) db.environments)) [
          | inr unlinked ↦ ground (arith, encrypts, unlinked)
          | inl linked ↦ elim (Bool-cases (any (secret_clash (row message)) db.secrets)) [
            | inl clash ↦ ground (arith, encrypts, linked, clash)
            | inr clear ↦
                let same : ◌≡◌ {A = Result (Done SecretDto)}
                    (ok (record {
                      db = record db { secrets = db.secrets ++ row message ∷ [] };
                      events = audit actor "SECRET_CREATED" (print_nat new_id) ∷ [];
                      value = dto_of (row message) dto.value;
                    }))
                    (ok d) =
                  ground (arith, encrypts, linked, clear, h) in
                let same_d : ◌≡◌ {A = Done SecretDto}
                    (record {
                      db = record db { secrets = db.secrets ++ row message ∷ [] };
                      events = audit actor "SECRET_CREATED" (print_nat new_id) ∷ [];
                      value = dto_of (row message) dto.value;
                    })
                    d =
                  cc in
                rw (← same_d) (
                  row message,
                  refl,
                  refl,
                  decrypt-encrypt cipher laws iv dto.value message plain_iv some_iv some_value
                      encrypts,
                )
          ]
        ]
  ]

-- A creation that succeeds adds one secret, whose stored value decrypts to the value that was given,
-- if that is not empty; the answer shows the secret with that value.
pub decrypt-create :
    (client : PrismaService)
    → IsPrisma client
    → (cipher : Cipher) → IsCipher cipher
    → (db : Database) (environment_id : String) (dto : CreateSecretDto) (actor : UserDto)
      (new_id : ℕ) (iv : String) (d : Done SecretDto)
    → has_colon iv ≡ false
    → (iv == "") ≡ false
    → (dto.value == "") ≡ false
    → create client cipher db environment_id dto actor new_id iv ≡ ok d
    → (s : Secret) × (d.value ≡ dto_of s dto.value)
      × ((d.db).secrets ≡ db.secrets ++ s ∷ [])
      × (decrypt cipher s.value ≡ ok dto.value)
decrypt-create client laws cipher cipher_laws db environment_id dto actor new_id iv d plain_iv
      some_iv some_value =
    for_every_client
      (λ c.
        create c cipher db environment_id dto actor new_id iv ≡ ok d
        → (s : Secret) × (d.value ≡ dto_of s dto.value)
          × ((d.db).secrets ≡ db.secrets ++ s ∷ [])
          × (decrypt cipher s.value ≡ ok dto.value))
      client laws
      (created_in_memory cipher cipher_laws db environment_id dto actor new_id iv plain_iv some_iv
        some_value d)
