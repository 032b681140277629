-- ===== src/Projects/Sharing.antt =====
-- projects/projects.service.ts, `updateAccess`: who owns, sees or is denied a project.
pub mod Lockout
use schematica_api.Access.{Grants}
use schematica_api.Admin.Users.{has_twin}
use schematica_api.Common.{
  String, ℕ, Bool, true, false, not, ◌&&◌, ◌||◌, Option, none, some, List, [], ◌∷◌, ◌++◌, map, any,
  every, keep, ◌==◌, if◌then◌else◌,
}
use schematica_api.Database.{Database, PrismaService}
use schematica_api.Entities.{
  Project, UserProjectAccess, TeamProjectAccess, DeniedUser, AccessType, owner, viewer,
}
use schematica_api.Events.{Event, Done, audit}
use schematica_api.Exceptions.{
  Exception, Result, ok, throw, forbidden, project_not_found, project_concurrency,
}
use schematica_api.Prisma.Errors.{
  Try, fine, raise, Caught, app_error, prisma_error, unique_constraint_failed,
  foreign_key_constraint_failed, record_not_found, attempt, or_not_found, or_raise, no_mappings,
  handle_prisma_error, try_catch, ◌>>=◌, ◌>>◌,
}
use schematica_api.Projects.{has_project_id, is_current}
use schematica_api.User.{UserDto, admin, role_eq, team_ids}

-- The ids that the lists of the request name; a missing list is empty.
pub record UpdateAccessDto : Type 0 where
  pub owner_user_ids : List String
  pub owner_team_ids : List String
  pub viewer_user_ids : List String
  pub viewer_team_ids : List String
  pub denied_user_ids : List String
  pub last_known_updated_at : String

abbrev pub includes : List String → String → Bool
includes ids id = any (λ i. i == id) ids

abbrev pub still_owner : UpdateAccessDto → UserDto → Bool
still_owner dto user =
    includes dto.owner_user_ids user.id || any (includes (team_ids user)) dto.owner_team_ids

abbrev pub users_as : String → AccessType → List String → List UserProjectAccess
users_as project_id type ids =
    map {A = String} (λ id. record { user_id = id; project_id = project_id; type = type }) ids

abbrev pub teams_as : String → AccessType → List String → List TeamProjectAccess
teams_as project_id type ids =
    map {A = String} (λ id. record { team_id = id; project_id = project_id; type = type }) ids

-- A list of new access rows: nobody stands in it twice, and everybody exists.
abbrev pub check_new : List String → List String → Try (Unit {0})
check_new ids existing =
    if has_twin ids
    then raise (prisma_error unique_constraint_failed)
    else if every (includes existing) ids
    then fine tt
    else raise (prisma_error foreign_key_constraint_failed)

-- `deniedUsers: { set: … }` connects to existing users.
abbrev pub check_connected : List String → List String → Try (Unit {0})
check_connected ids existing =
    if every (includes existing) ids then fine tt else raise (prisma_error record_not_found)

abbrev pub shared : Database → String → UpdateAccessDto → Grants
shared db project_id dto = record (db.grants) {
  user_accesses =
      keep (λ a. not (a.project_id == project_id)) (db.grants).user_accesses
      ++ (users_as project_id owner dto.owner_user_ids
          ++ users_as project_id viewer dto.viewer_user_ids);
  team_accesses =
      keep (λ a. not (a.project_id == project_id)) (db.grants).team_accesses
      ++ (teams_as project_id owner dto.owner_team_ids
          ++ teams_as project_id viewer dto.viewer_team_ids);
  denied_users =
      keep (λ a. not (a.project_id == project_id)) (db.grants).denied_users
      ++ map {A = String} (λ id. record { user_id = id; project_id = project_id })
          dto.denied_user_ids;
}

-- ProjectNotFoundException and ForbiddenException are passed on.
pub access_error : Caught → Exception
access_error (app_error (project_not_found id)) = project_not_found id
access_error (app_error (forbidden m)) = forbidden m
access_error e = handle_prisma_error e (record no_mappings { missing = some project_concurrency })

module _ (client : PrismaService) where
  unfoldable pub share : Database → String → UpdateAccessDto → UserDto → String → Try (Done Project)
  share db project_id dto current_user now = do
    existing ←
        or_raise (client.project.find_first (has_project_id project_id) (db.grants).projects)
          (project_not_found project_id)
    current ← or_not_found (
        client.project.find_first (is_current project_id dto.last_known_updated_at)
          (db.grants).projects)
    check_new (dto.owner_user_ids ++ dto.viewer_user_ids) (map (λ u. u.id) db.users)
    check_new (dto.owner_team_ids ++ dto.viewer_team_ids) (map (λ t. t.id) db.teams)
    check_connected dto.denied_user_ids (map (λ u. u.id) db.users)
    written ← attempt (
        client.project.update (any (λ u. u.id == current_user.id) db.users)
          (has_project_id project_id)
          (λ p. record p { updated_by_id = current_user.id; updated_at = now })
          (db.grants).projects)
    fine (record {
      db = record db { grants = record (shared db project_id dto) { projects = written.0 } };
      events = audit current_user "PROJECT_ACCESS_UPDATED" project_id ∷ [];
      value = written.1;
    })

  unfoldable pub update_access :
      Database → String → UpdateAccessDto → UserDto → String → Result (Done Project)
  update_access db project_id dto current_user now =
      if not (role_eq current_user.role admin) && not (still_owner dto current_user)
      then throw (forbidden "Project owners cannot remove themselves from the owner list.")
      else try_catch (share db project_id dto current_user now) access_error
