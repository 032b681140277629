-- ===== src/Admin/Users.antt =====
-- admin/users/admin-users.service.ts: the creation, the update and the deletion of a user. Where the
-- files service stores a picture is an argument; the paths that are handed back to it for deletion
-- are part of the answer.
pub mod Removal
pub mod Listing
use schematica_api.Common.{
  String, ℕ, ◌+◌, Bool, true, false, not, ◌&&◌, ◌||◌, Option, none, some, List, [], ◌∷◌, ◌++◌, map,
  any, keep, every, ◌==◌, if◌then◌else◌, to_lower_case,
}
use schematica_api.Access.{Grants}
use schematica_api.Database.{Database, PrismaService}
use schematica_api.Entities.{User, TeamMembership, UserProjectAccess}
use schematica_api.Events.{Event, Done, audit}
use schematica_api.Exceptions.{
  Exception, Result, ok, throw, forbidden, user_conflict, user_not_found, internal_server_error,
}
use schematica_api.Exceptions
use schematica_api.Prisma.Errors.{
  Outcome, Try, fine, raise, Caught, app_error, prisma_error, record_not_found,
  unique_constraint_failed, attempt, or_not_found, no_mappings, unexpected, handle_prisma_error,
  try_catch, ◌>>=◌, ◌>>◌,
}
use schematica_api.User.{UserDto, Role}
use schematica_api.Users.{Bcrypt, truthy, has_user_id}
use Prim.Native.String

pub record CreateUserDto : Type 0 where
  pub username : String
  pub password : String
  pub role : Role
  pub teams : List String

pub record UpdateUserDto : Type 0 where
  pub role : Option Role
  pub teams : Option (List String)
  pub password : Option String

abbrev pub role_or : Option Role → Role → Role
role_or none r = r
role_or (some r) _ = r

-- `{ create: teams.map((teamId) => ({ team: { connect: { id: teamId } } })) }`
abbrev pub memberships : String → List String → List TeamMembership
memberships user_id teams = map (λ t. record { user_id = user_id; team_id = t }) teams

-- The teams that a nested write connects to exist.
abbrev pub teams_exist : Database → List String → Bool
teams_exist db teams = every (λ t. any (λ row. row.id == t) db.teams) teams

abbrev pub has_twin : List String → Bool
has_twin [] = false
has_twin (t ∷ ts) = any (λ s. s == t) ts || has_twin ts

-- A nested write of the memberships of a user who has none.
abbrev pub connect_teams : Database → List String → Try (Unit {0})
connect_teams db teams =
    if teams_exist db teams
    then if has_twin teams then raise (prisma_error unique_constraint_failed) else fine tt
    else raise (prisma_error record_not_found)

abbrev pub without_memberships : String → Database → Database
without_memberships user_id db = record db {
  team_memberships = keep (λ m. not (m.user_id == user_id)) db.team_memberships;
}

abbrev pub hashed : Bcrypt → String → User → User
hashed bcrypt plain u = record u {
  password = some (bcrypt.hash plain);
  token_version = u.token_version + 1;
}

-- The columns that an update writes.
abbrev pub updated_user : Bcrypt → UpdateUserDto → User → User
updated_user bcrypt dto u = elim dto.password [
  | none ↦ record u { role = role_or dto.role u.role }
  | some plain ↦
      if truthy (some plain)
      then hashed bcrypt plain (record u { role = role_or dto.role u.role })
      else record u { role = role_or dto.role u.role }
]

-- The columns that a deletion writes.
abbrev pub deleted_user : String → String → User → User → User
deleted_user now stamp existing u = record u {
  deleted_at = some now;
  username = Prim.Native.String.◌++◌ existing.username (Prim.Native.String.◌++◌ "_deleted_" stamp);
  password = none;
  token_version = u.token_version + 1;
}

abbrev pub is_gone : User → Bool
is_gone u = elim u.deleted_at [ none ↦ false | some at ↦ true ]

abbrev pub without_accesses : String → Database → Database
without_accesses user_id db = record db {
  grants = record (db.grants) {
    user_accesses = keep (λ a. not (a.user_id == user_id)) (db.grants).user_accesses;
  };
}

module _ (client : PrismaService) (bcrypt : Bcrypt) where
  -- The database's part of `create`.
  unfoldable pub create_try :
      Database → CreateUserDto → UserDto → Option String → String → Try (Done User)
  create_try db dto actor profile_image_path new_id = do
    users ← attempt (client.user.create true (new_user dto profile_image_path new_id) db.users)
    connect_teams db dto.teams
    fine (record {
      db = record db {
        users = users;
        team_memberships = db.team_memberships ++ memberships new_id dto.teams;
      };
      events = audit actor "USER_CREATED" new_id ∷ [];
      value = new_user dto profile_image_path new_id;
    })
    where
      new_user : CreateUserDto → Option String → String → User
      new_user d image id = record {
        id = id;
        username = to_lower_case d.username;
        password = some (bcrypt.hash d.password);
        role = d.role;
        profile_image = image;
        token_version = 1;
        deleted_at = none;
      }

  -- With the picture's path to delete, if the request fails after the picture was stored. `saved` is
  -- none without a picture, `some none` where it could not be stored.
  unfoldable pub create :
      Database
      → CreateUserDto
      → UserDto
      → Option (Option String)
      → String
      → Result (Done User) × Option String
  create db dto actor saved new_id = elim saved [
    | none ↦ (try_catch (create_try db dto actor none new_id) on_error, none)
    | some none ↦ (throw unexpected, none)
    | some (some path) ↦ elim (create_try db dto actor (some path) new_id) [
      | fine d ↦ (ok d, none)
      | raise e ↦ (throw (on_error e), some path)
    ]
  ]
    where
      on_error : Caught → Exception
      on_error e =
          handle_prisma_error e
            (record no_mappings { unique = some (user_conflict (to_lower_case dto.username)) })

  unfoldable pub update_try : Database → String → UpdateUserDto → UserDto → Try (Done User)
  update_try db user_id dto actor = do
    written ←
        attempt (client.user.update true (has_user_id user_id) (updated_user bcrypt dto) db.users)
    reconnect db dto.teams
    fine (record {
      db = record (with_teams db user_id dto.teams) { users = written.0 };
      events =
          audit actor "USER_UPDATED" user_id
          ∷ (if truthy dto.password
              then audit actor "USER_PASSWORD_UPDATED_BY_ADMIN" user_id ∷ []
              else []);
      value = written.1;
    })
    where
      reconnect : Database → Option (List String) → Try (Unit {0})
      reconnect d none = fine tt
      reconnect d (some teams) = connect_teams d teams

      with_teams : Database → String → Option (List String) → Database
      with_teams d id none = d
      with_teams d id (some teams) = record d {
        team_memberships = (without_memberships id d).team_memberships ++ memberships id teams;
      }

  unfoldable pub update : Database → String → UpdateUserDto → UserDto → Result (Done User)
  update db user_id dto actor =
      try_catch (update_try db user_id dto actor) (λ e.
        handle_prisma_error e (record no_mappings { missing = some (user_not_found user_id) }))

  unfoldable pub remove_try : Database → String → UserDto → String → String → Try (Done (Unit {0}))
  remove_try db user_id actor now stamp = do
    user_to_delete ← or_not_found (client.user.find_first (has_user_id user_id) db.users)
    if is_gone user_to_delete then raise (app_error (user_not_found user_id)) else fine tt
    written ← attempt (
        client.user.update true (has_user_id user_id) (deleted_user now stamp user_to_delete)
          db.users)
    fine (record {
      db = record (without_accesses user_id (without_memberships user_id db)) { users = written.0 };
      events = audit actor "USER_DELETED" user_id ∷ [];
      value = tt;
    })

  unfoldable pub remove : Database → String → UserDto → String → String → Result (Done (Unit {0}))
  remove db user_id actor now stamp =
      if user_id == actor.id
      then throw (forbidden "You cannot delete your own account.")
      else try_catch (remove_try db user_id actor now stamp) (λ e.
        handle_prisma_error e (record no_mappings { missing = some (user_not_found user_id) }))
