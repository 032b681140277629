-- ===== src/Users.antt =====
-- users/users.service.ts: the operations by which a user changes or sets the password. Hashing
-- (bcrypt) is a parameter. An error of the database leaves these operations as it is: they have no
-- `catch` clause.
pub mod Passwords
pub mod Sanitized
pub mod Listing
use schematica_api.Common.{
  String, ℕ, ◌+◌, Bool, true, false, not, Option, none, some, List, [], ◌==◌, if◌then◌else◌,
}
use schematica_api.Database.{Database, PrismaService}
use schematica_api.Entities.{User}
use schematica_api.Exceptions
use schematica_api.Exceptions.{not_found, bad_request}
use schematica_api.Prisma.Errors.{Try, fine, raise, app_error, attempt, or_raise, ◌>>=◌, ◌>>◌}

-- `compare(plainText, hash)` and `hash(plainText, saltRounds)`
pub record Bcrypt : Type 0 where
  pub compare : String → String → Bool
  pub hash : String → String

-- `!!text`: a missing text and the empty one are falsy.
abbrev pub truthy : Option String → Bool
truthy none = false
truthy (some s) = not (s == "")

abbrev pub has_user_id : String → User → Bool
has_user_id user_id u = u.id == user_id

-- `tokenVersion: { increment: 1 }` with a new hash.
abbrev pub with_password : Bcrypt → String → User → User
with_password bcrypt plain u = record u {
  password = some (bcrypt.hash plain);
  token_version = u.token_version + 1;
}

-- `await compare(plain, user.password)`
abbrev pub is_password : Bcrypt → String → User → Bool
is_password bcrypt plain u = elim u.password [ none ↦ false | some h ↦ bcrypt.compare plain h ]

abbrev pub check : Bool → Exceptions.Exception → Try (Unit {0})
check true e = fine tt
check false e = raise (app_error e)

module _ (client : PrismaService) (bcrypt : Bcrypt) where
  unfoldable pub write_password : Database → String → String → Try Database
  write_password db user_id plain = do
    written ←
        attempt
          (client.user.update true (has_user_id user_id) (with_password bcrypt plain) db.users)
    fine (record db { users = written.0 })

  unfoldable pub update_password : Database → String → String → String → Try Database
  unfolding write_password
  update_password db user_id current_password new_password = do
    user ←
        or_raise (client.user.find_first (has_user_id user_id) db.users)
          (not_found "User not found.")
    check (truthy user.password) (
        bad_request
          "This account does not have a password set. Please use the set-password endpoint first.")
    check (is_password bcrypt current_password user) (bad_request "Incorrect current password.")
    write_password db user_id new_password

  unfoldable pub set_password : Database → String → String → Try Database
  unfolding write_password
  set_password db user_id new_password = do
    user ←
        or_raise (client.user.find_first (has_user_id user_id) db.users)
          (not_found "User not found.")
    check (not (truthy user.password)) (
        bad_request "This account already has a password. Please use the change-password endpoint.")
    write_password db user_id new_password
