-- ===== src/Auth.antt =====
-- auth/auth.service.ts and auth/strategies: who a user is taken for. The verification of a token's
-- signature is the web framework's; what it hands over is the payload that `login` signed.
pub mod Revocation
pub mod Suffixes
pub mod OAuth
mod Tests
use schematica_api.Common.{
  String, ℕ, ◌+◌, ◌%◌, Bool, true, false, not, ◌&&◌, Option, none, some, List, [], ◌∷◌, ◌++◌,
  length, map, keep, find, any, ◌==◌, nat_eq, if◌then◌else◌,
}
use schematica_api.Database.{Database, PrismaService}
use schematica_api.Entities.{User, Team, AuthProvider}
use schematica_api.Exceptions.{Result, ok, throw, unauthorized}
use schematica_api.Prisma.Errors.{Try, fine, raise, Caught, attempt, ◌>>=◌}
use schematica_api.User.{Role, member, TeamDto}
use schematica_api.Users.{Bcrypt, truthy, is_password, has_user_id}

-- `Omit<User, 'password'>` and, with the teams, `UserWithTeams`.
pub record SafeUser : Type 0 where
  pub id : String
  pub username : String
  pub role : Role
  pub profile_image : Option String
  pub token_version : ℕ
  pub deleted_at : Option String

pub record UserWithTeams : Type 0 where
  pub user : SafeUser
  pub teams : List Team

-- What the strategy for tokens answers.
pub record TokenUser : Type 0 where
  pub user : SafeUser
  pub teams : List Team
  pub has_password : Bool

pub record JwtPayload : Type 0 where
  pub sub : String
  pub username : String
  pub role : Role
  pub token_version : ℕ

-- `const { password: _, ...result } = user`
abbrev pub without_password : User → SafeUser
without_password u = record {
  id = u.id;
  username = u.username;
  role = u.role;
  profile_image = u.profile_image;
  token_version = u.token_version;
  deleted_at = u.deleted_at;
}

abbrev pub is_deleted : User → Bool
is_deleted u = elim u.deleted_at [ none ↦ false | some at ↦ true ]

-- `user.password !== null`
abbrev pub has_password : User → Bool
has_password u = elim u.password [ none ↦ false | some h ↦ true ]

-- The payload that `login` signs.
unfoldable pub login : SafeUser → JwtPayload
login user = record {
  sub = user.id;
  username = user.username;
  role = user.role;
  token_version = user.token_version;
}

-- `teamMemberships: { select: { team: true } }`
abbrev pub teams_of : Database → String → List Team
teams_of db user_id =
    keep (λ t. any (λ m. m.user_id == user_id && m.team_id == t.id) db.team_memberships) db.teams

module _ (client : PrismaService) where
  unfoldable pub validate_user : Bcrypt → Database → String → String → Option SafeUser
  validate_user bcrypt db username password_plain_text =
      elim (client.user.find_first (λ u. u.username == username) db.users) [
        | none ↦ none
        | some user ↦
            if truthy user.password
              && (not (is_deleted user) && is_password bcrypt password_plain_text user)
            then some (without_password user)
            else none
      ]

  -- `LocalStrategyFastify.validate`
  unfoldable pub validate_local : Bcrypt → Database → String → String → Result SafeUser
  validate_local bcrypt db username password = elim (validate_user bcrypt db username password) [
    | none ↦ throw (unauthorized "Invalid credentials")
    | some user ↦ ok user
  ]

  -- `JwtStrategyFastify.validate`
  unfoldable pub validate : Database → JwtPayload → Result TokenUser
  validate db payload = elim (client.user.find_first (has_user_id payload.sub) db.users) [
    | none ↦ throw (unauthorized "User not found or has been deactivated")
    | some user ↦
        if is_deleted user
        then throw (unauthorized "User not found or has been deactivated")
        else if nat_eq user.token_version payload.token_version
        then ok (record {
          user = without_password user;
          teams = teams_of db user.id;
          has_password = has_password user;
        })
        else throw (unauthorized "Token is no longer valid")
  ]
