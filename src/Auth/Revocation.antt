-- ===== src/Auth/Revocation.antt =====
-- Which tokens are accepted, and that a change of the password revokes those issued before.
use schematica_api.Auth.{
  SafeUser, TokenUser, JwtPayload, without_password, is_deleted, has_password, login, teams_of,
  validate,
}
use schematica_api.Common.{
  String, true, false, ◌≡◌, ◌⊎◌, inl, inr, arith, some, find, nat_eq, Bool-cases, Option-cases,
}
use schematica_api.Database.{Database, PrismaService, IsPrisma, memory_client, for_every_client}
use schematica_api.Entities.{User}
use schematica_api.Exceptions.{ok, throw, unauthorized}
use schematica_api.Prisma.Errors.{fine}
use schematica_api.Users.{Bcrypt, has_user_id, with_password, update_password, set_password}
use schematica_api.Users.Passwords.{update_password-found, set_password-found}

-- The three answers to a token that `login` issued, for the user that its id names now.
abbrev pub IsJudged : PrismaService → Database → SafeUser → User → Type 0
IsJudged client db issued u =
    ((validate client db (login issued)
        ≡ ok (record {
          user = without_password u;
          teams = teams_of db u.id;
          has_password = has_password u;
        }))
      × (is_deleted u ≡ false)
      × (u.token_version ≡ issued.token_version))
    ⊎ ((validate client db (login issued)
          ≡ throw (unauthorized "User not found or has been deactivated"))
        × (is_deleted u ≡ true))
    ⊎ ((validate client db (login issued) ≡ throw (unauthorized "Token is no longer valid"))
        × (is_deleted u ≡ false)
        × (¬ (u.token_version ≡ issued.token_version)))

validate-login_in_memory :
    (db : Database) (issued : SafeUser) (u : User)
    → find (has_user_id issued.id) db.users ≡ some u
    → IsJudged memory_client db issued u
unfolding validate login
validate-login_in_memory db issued u found = elim (Bool-cases (is_deleted u)) [
  | inl gone ↦ inr (inl (ground (arith, found, gone), gone))
  | inr live ↦ elim (Bool-cases (nat_eq u.token_version issued.token_version)) [
    | inl same ↦ inl (ground (arith, found, live, same), live, ground arith)
    | inr other ↦ inr (inr (ground (arith, found, live, other), live, ground arith))
  ]
]

-- A token that `login` issued for a user whose id still names a row is accepted exactly if the row
-- is not deleted and has the token version that the token was issued with; it is answered with the
-- row, without its password, and its teams. Otherwise the answer is 401, with the reason.
pub validate-login :
    (client : PrismaService)
    → IsPrisma client
    → (db : Database) (issued : SafeUser) (u : User)
    → find (has_user_id issued.id) db.users ≡ some u
    → IsJudged client db issued u
validate-login client laws db issued u found =
    for_every_client (λ c. IsJudged c db issued u) client laws
      (validate-login_in_memory db issued u found)

module _ (bcrypt : Bcrypt) (db db' : Database) (payload : JwtPayload) (a : TokenUser)
    (plain : String) where
  -- An accepted token carries the version of the row.
  validate-found :
      validate memory_client db payload ≡ ok a
      → (u : User) × (find (has_user_id payload.sub) db.users ≡ some u)
        × (is_deleted u ≡ false)
        × (u.token_version ≡ payload.token_version)
  unfolding validate
  validate-found h = elim (Option-cases (find (has_user_id payload.sub) db.users)) [
    | inl e ↦ ground (arith, e)
    | inr (u, e) ↦ elim (Bool-cases (is_deleted u)) [
      | inl gone ↦ ground (arith, e, gone)
      | inr live ↦ elim (Bool-cases (nat_eq u.token_version payload.token_version)) [
        | inl same ↦ (u, e, live, ground arith)
        | inr other ↦ ground (arith, e, live, other)
      ]
    ]
  ]

  bumped :
      (u : User)
      → find (has_user_id payload.sub) db'.users ≡ some (with_password bcrypt plain u)
      → is_deleted u ≡ false
      → u.token_version ≡ payload.token_version
      → validate memory_client db' payload ≡ throw (unauthorized "Token is no longer valid")
  unfolding validate
  bumped u e live same = ground (arith, e, live, same)

  updated_in_memory :
      (current : String)
      → validate memory_client db payload ≡ ok a
      → update_password memory_client bcrypt db payload.sub current plain ≡ fine db'
      → validate memory_client db' payload ≡ throw (unauthorized "Token is no longer valid")
  updated_in_memory current h done =
      let (u, found, live, same) = validate-found h in
      bumped u (update_password-found bcrypt db db' payload.sub plain u found current done) live
        same

  set_in_memory :
      validate memory_client db payload ≡ ok a
      → set_password memory_client bcrypt db payload.sub plain ≡ fine db'
      → validate memory_client db' payload ≡ throw (unauthorized "Token is no longer valid")
  set_in_memory h done =
      let (u, found, live, same) = validate-found h in
      bumped u (set_password-found bcrypt db db' payload.sub plain u found done) live same

-- A token that was accepted is refused once its user has changed the password.
update_password_revokes :
    (client : PrismaService)
    → IsPrisma client
    → (bcrypt : Bcrypt) (db db' : Database) (payload : JwtPayload) (a : TokenUser)
      (current plain : String)
    → validate client db payload ≡ ok a
    → update_password client bcrypt db payload.sub current plain ≡ fine db'
    → validate client db' payload ≡ throw (unauthorized "Token is no longer valid")
update_password_revokes client laws bcrypt db db' payload a current plain =
    for_every_client
      (λ c.
        validate c db payload ≡ ok a
        → update_password c bcrypt db payload.sub current plain ≡ fine db'
        → validate c db' payload ≡ throw (unauthorized "Token is no longer valid"))
      client laws (updated_in_memory bcrypt db db' payload a plain current)

-- A token that was accepted is refused once its user has set a first password.
set_password_revokes :
    (client : PrismaService)
    → IsPrisma client
    → (bcrypt : Bcrypt) (db db' : Database) (payload : JwtPayload) (a : TokenUser) (plain : String)
    → validate client db payload ≡ ok a
    → set_password client bcrypt db payload.sub plain ≡ fine db'
    → validate client db' payload ≡ throw (unauthorized "Token is no longer valid")
set_password_revokes client laws bcrypt db db' payload a plain =
    for_every_client
      (λ c.
        validate c db payload ≡ ok a
        → set_password c bcrypt db payload.sub plain ≡ fine db'
        → validate c db' payload ≡ throw (unauthorized "Token is no longer valid"))
      client laws (set_in_memory bcrypt db db' payload a plain)

-- A token that was accepted is refused once its user has changed the password or set a first one.
pub password_write_revokes :
    (client : PrismaService)
    → IsPrisma client
    → (bcrypt : Bcrypt) (db db' : Database) (payload : JwtPayload) (a : TokenUser)
      (current plain : String)
    → validate client db payload ≡ ok a
    → (update_password client bcrypt db payload.sub current plain ≡ fine db')
      ⊎ (set_password client bcrypt db payload.sub plain ≡ fine db')
    → validate client db' payload ≡ throw (unauthorized "Token is no longer valid")
password_write_revokes client laws bcrypt db db' payload a current plain h (inl changed) =
    update_password_revokes client laws bcrypt db db' payload a current plain h changed
password_write_revokes client laws bcrypt db db' payload a current plain h (inr written) =
    set_password_revokes client laws bcrypt db db' payload a plain h written
