-- ===== src/Users/Passwords.antt =====
-- What a change of the password leaves in the database.
use schematica_api.Common.{String, ◌≡◌, ◌∙◌, ◌⊎◌, inl, inr, sym, arith, some, find, any, Bool-cases}
use schematica_api.Database.{Database, memory_client}
use schematica_api.Entities.{User, user_clash}
use schematica_api.Prisma.{replace_first, remove_first}
use schematica_api.Prisma.Errors.{Caught, prisma_error, unique_constraint_failed, fine, raise}
use schematica_api.Prisma.Tables.{find-replace_first, find-fits}
use schematica_api.Users.{
  Bcrypt, truthy, has_user_id, with_password, is_password, write_password, update_password,
  set_password,
}

module _ (bcrypt : Bcrypt) (db db' : Database) (user_id plain : String) (u : User)
    (found : find (has_user_id user_id) db.users ≡ some u) where
  abbrev written : Database
  written = record db {
    users = replace_first (has_user_id user_id) (with_password bcrypt plain u) db.users;
  }

  write_password-eq :
      (write_password memory_client bcrypt db user_id plain ≡ fine written)
      ⊎ ((e : Caught) × (write_password memory_client bcrypt db user_id plain ≡ raise e))
  unfolding write_password
  write_password-eq =
      elim (Bool-cases (
        any (user_clash (with_password bcrypt plain u))
          (remove_first (has_user_id user_id) db.users))) [
            | inl clash ↦ inr (prisma_error unique_constraint_failed, ground (arith, found, clash))
            | inr clear ↦ inl (ground (arith, found, clear))
          ]

  found_after :
      written ≡ db' → find (has_user_id user_id) db'.users ≡ some (with_password bcrypt plain u)
  found_after same = rw (← same) (
      find-replace_first (has_user_id user_id) (with_password bcrypt plain u) u db.users
        (find-fits (has_user_id user_id) db.users u found) found)

  write_password-found :
      write_password memory_client bcrypt db user_id plain ≡ fine db'
      → find (has_user_id user_id) db'.users ≡ some (with_password bcrypt plain u)
  write_password-found h = elim write_password-eq [
    | inl e ↦ let same : fine written ≡ fine db' = sym e ∙ h in found_after cc
    | inr (c, e) ↦ let no : raise c ≡ fine db' = sym e ∙ h in cc
  ]

  pub update_password-found :
      (current : String)
      → update_password memory_client bcrypt db user_id current plain ≡ fine db'
      → find (has_user_id user_id) db'.users ≡ some (with_password bcrypt plain u)
  unfolding update_password
  update_password-found current h = elim (Bool-cases (truthy u.password)) [
    | inl set ↦ elim (Bool-cases (is_password bcrypt current u)) [
      | inl right ↦ write_password-found (ground (arith, found, set, right))
      | inr wrong ↦ ground (arith, found, set, wrong)
    ]
    | inr unset ↦ ground (arith, found, unset)
  ]

  pub set_password-found :
      set_password memory_client bcrypt db user_id plain ≡ fine db'
      → find (has_user_id user_id) db'.users ≡ some (with_password bcrypt plain u)
  unfolding set_password
  set_password-found h = elim (Bool-cases (truthy u.password)) [
    | inl set ↦ ground (arith, found, set)
    | inr unset ↦ write_password-found (ground (arith, found, unset))
  ]
