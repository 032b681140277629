-- ===== src/Auth/Tests.antt =====
-- Tokens on a small state.
use schematica_api.Auth.{JwtPayload, TokenUser, without_password, validate}
use schematica_api.Auth.Revocation.{IsJudged, validate-login, password_write_revokes}
use schematica_api.Auth.OAuth.{OauthUserDto, find_available_username}
use schematica_api.Auth.OAuth.Names.{IsFound, find_available_username_total}
use schematica_api.Auth.OAuth.Linking.{IsProvisioned, IsKnown, validate_oauth_user_linked}
use schematica_api.Common.{Bool, String, inl, some, ◌==◌, ◌≡◌, refl, none, [], ◌∷◌}
use schematica_api.Database.{Database, memory_client, memory_client-IsPrisma}
use schematica_api.Exceptions.{throw, unauthorized, ok}
use schematica_api.Prisma.Errors.{fine}
use schematica_api.Samples.{alice_row, db}
use schematica_api.Users.{Bcrypt, update_password, set_password, with_password, write_password}

abbrev plain_bcrypt : Bcrypt
plain_bcrypt = record {
  compare = λ plain hashed. (Prim.Native.String.◌++◌ "hash:" plain) == hashed;
  hash = λ plain. Prim.Native.String.◌++◌ "hash:" plain;
}

abbrev token : JwtPayload
token = record { sub = "u1"; username = "alice"; role = alice_row.role; token_version = 1 }

abbrev alice_session : TokenUser
alice_session = record { user = without_password alice_row; teams = []; has_password = Bool.true }

validate-login_example : IsJudged memory_client db (without_password alice_row) alice_row
validate-login_example =
    validate-login memory_client memory_client-IsPrisma db (without_password alice_row) alice_row
      refl

accepted : validate memory_client db token ≡ ok alice_session
unfolding validate
accepted = refl

abbrev changed_db : Database
changed_db = record db { users = with_password plain_bcrypt "new" alice_row ∷ [] }

changed : update_password memory_client plain_bcrypt db "u1" "pw" "new" ≡ fine changed_db
unfolding update_password write_password
changed = refl

password_write_revokes_example :
    validate memory_client changed_db token ≡ throw (unauthorized "Token is no longer valid")
password_write_revokes_example =
    password_write_revokes memory_client memory_client-IsPrisma plain_bcrypt db changed_db token
      alice_session "pw" "new" accepted (inl changed)

-- Alice came by OAuth and has no password yet.
abbrev oauth_db : Database
oauth_db = record db { users = record alice_row { password = none } ∷ [] }

oauth_accepted :
    validate memory_client oauth_db token ≡ ok (record alice_session { has_password = Bool.false })
unfolding validate
oauth_accepted = refl

first_set : set_password memory_client plain_bcrypt oauth_db "u1" "new" ≡ fine changed_db
unfolding set_password write_password
first_set = refl

abbrev visitor : OauthUserDto
visitor = record { provider = "gitlab"; provider_id = "7"; username = "alice" }

-- The search wraps around the list of suffixes.
last_suffix : find_available_username memory_client db "alice" 303 ≡ some "alice_highAvailability"
unfolding find_available_username
last_suffix = refl

find_available_username_total_example : IsFound memory_client db "alice" 0
find_available_username_total_example =
    find_available_username_total memory_client memory_client-IsPrisma db "alice" 0

validate_oauth_user_linked_example :
    (name : String) × IsProvisioned memory_client db visitor 0 "u7" name
    × IsKnown memory_client db visitor "u7" name
validate_oauth_user_linked_example =
    validate_oauth_user_linked memory_client memory_client-IsPrisma db visitor 0 "u7" refl refl
