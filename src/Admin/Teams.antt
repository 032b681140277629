-- ===== src/Admin/Teams.antt =====
-- admin/teams/admin-teams.service.ts. The foreign keys to a team follow a change of its id
-- (`onUpdate`) and go with it (`onDelete: Cascade`).
use schematica_api.Common.{
  String, Bool, true, not, some, [], ◌∷◌, map, keep, ◌==◌, if◌then◌else◌, to_lower_case,
}
use schematica_api.Database.{Database, PrismaService}
use schematica_api.Entities.{Team, TeamMembership, TeamProjectAccess}
use schematica_api.Events.{Done, audit}
use schematica_api.Exceptions.{Result, team_conflict, team_not_found}
use schematica_api.Prisma.Errors.{fine, attempt, no_mappings, handle_prisma_error, try_catch, ◌>>=◌}
use schematica_api.User.{UserDto}

abbrev pub has_team_id : String → Team → Bool
has_team_id team_id t = t.id == team_id

abbrev pub named : String → Team
named name = record { id = name; name = name }

abbrev renamed : String → String → String → String
renamed old new id = if id == old then new else id

-- The rows of the other tables after a team's id has changed.
pub rename_references : String → String → Database → Database
rename_references old new db = record db {
  team_memberships =
      map {A = TeamMembership} (λ m. record m { team_id = renamed old new m.team_id })
        db.team_memberships;
  grants = record (db.grants) {
    team_accesses =
        map {A = TeamProjectAccess} (λ a. record a { team_id = renamed old new a.team_id })
          (db.grants).team_accesses;
  };
}

pub drop_references : String → Database → Database
drop_references team_id db = record db {
  team_memberships = keep (λ m. not (m.team_id == team_id)) db.team_memberships;
  grants = record (db.grants) {
    team_accesses = keep (λ a. not (a.team_id == team_id)) (db.grants).team_accesses;
  };
}

module _ (client : PrismaService) where
  unfoldable pub create : Database → String → UserDto → Result (Done Team)
  create db name actor =
      let team_name = to_lower_case name in
      try_catch
        (do
          teams ← attempt (client.team.create true (named team_name) db.teams)
          fine (record {
            db = record db { teams = teams };
            events = audit actor "TEAM_CREATED" team_name ∷ [];
            value = named team_name;
          }))
        (λ e.
          handle_prisma_error e (record no_mappings { unique = some (team_conflict team_name) }))

  unfoldable pub update : Database → String → String → UserDto → Result (Done Team)
  update db team_id name actor =
      let new_team_name = to_lower_case name in
      try_catch
        (do
          written ←
              attempt
                (client.team.update true (has_team_id team_id) (λ t. named new_team_name) db.teams)
          fine (record {
            db = record (rename_references team_id new_team_name db) { teams = written.0 };
            events = audit actor "TEAM_UPDATED" new_team_name ∷ [];
            value = written.1;
          }))
        (λ e. handle_prisma_error e (record no_mappings {
          missing = some (team_not_found team_id);
          unique = some (team_conflict new_team_name);
        }))

  unfoldable pub remove : Database → String → UserDto → Result (Done (Unit {0}))
  remove db team_id actor =
      try_catch
        (do
          deleted ← attempt (client.team.delete (has_team_id team_id) db.teams)
          fine (record {
            db = record (drop_references team_id db) { teams = deleted.0 };
            events = audit actor "TEAM_DELETED" team_id ∷ [];
            value = tt;
          }))
        (λ e.
          handle_prisma_error e (record no_mappings { missing = some (team_not_found team_id) }))
