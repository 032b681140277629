-- ===== src/Access.antt =====
-- access-control/access-control.service.ts, and the filter by which projects/projects.service.ts
-- selects the projects that a user may see (`_createAccessControlWhereClause`). A relation filter
-- (`some`, `none`) is read over the rows of the related table.
pub mod Rules
mod Tests
use schematica_api.Common.{
  String, ℕ, Bool, true, false, not, ◌&&◌, ◌||◌, Option, none, some, List, [], map, any, ◌==◌, ltb,
  if◌then◌else◌,
}
use schematica_api.Entities.{
  Project, UserProjectAccess, TeamProjectAccess, DeniedUser, is_owner, AccessType,
}
use schematica_api.Prisma.{Delegate}
use schematica_api.User.{UserDto, Role, admin, role_eq, team_ids}

-- The tables that access depends on.
pub record Grants : Type 0 where
  pub projects : List Project
  pub user_accesses : List UserProjectAccess
  pub team_accesses : List TeamProjectAccess
  pub denied_users : List DeniedUser

-- `{ in: ids }`
abbrev pub is_one_of : String → List String → Bool
is_one_of id ids = any (λ i. i == id) ids

module _ (g : Grants) where
  -- `userAccesses: { some: { userId, type: 'OWNER' } }`, and the same without the type
  abbrev pub owned_by : String → String → Bool
  owned_by user_id project_id =
      any (λ a. a.project_id == project_id && (a.user_id == user_id && is_owner a.type))
        g.user_accesses

  abbrev pub shared_with : String → String → Bool
  shared_with user_id project_id =
      any (λ a. a.project_id == project_id && a.user_id == user_id) g.user_accesses

  -- `teamAccesses: { some: { teamId: { in: teamIds }, type: 'OWNER' } }`, and without the type
  abbrev pub owned_by_team : List String → String → Bool
  owned_by_team teams project_id =
      any (λ a. a.project_id == project_id && (is_one_of a.team_id teams && is_owner a.type))
        g.team_accesses

  abbrev pub shared_with_team : List String → String → Bool
  shared_with_team teams project_id =
      any (λ a. a.project_id == project_id && is_one_of a.team_id teams) g.team_accesses

  -- `deniedUsers: { none: { id } }` is the negation.
  abbrev pub denied : String → String → Bool
  denied user_id project_id =
      any (λ d. d.project_id == project_id && d.user_id == user_id) g.denied_users

  module _ (client : Delegate Project) where
    unfoldable pub can_own_project : UserDto → String → Bool
    can_own_project user project_id =
        if role_eq user.role admin
        then true
        else ltb 0 (
            client.count
              (λ p.
                p.id == project_id && (owned_by user.id p.id || owned_by_team (team_ids user) p.id))
              g.projects)

    unfoldable pub can_view_project : UserDto → String → Bool
    can_view_project user project_id =
        if role_eq user.role admin
        then true
        else ltb 0 (
            client.count
              (λ p.
                p.id == project_id
                && (not (denied user.id p.id)
                    && (shared_with user.id p.id || shared_with_team (team_ids user) p.id)))
              g.projects)

  -- `{ teamId: { in: user.teams?.map((t) => t.id) } }`: `in: undefined` is no condition.
  abbrev shared_with_teams? : UserDto → String → Bool
  shared_with_teams? user project_id = elim user.teams [
    | none ↦ any (λ a. a.project_id == project_id) g.team_accesses
    | some ts ↦ shared_with_team (map (λ t. t.id) ts) project_id
  ]

  pub access_control_where_clause : UserDto → Project → Bool
  access_control_where_clause user p =
      if role_eq user.role admin
      then true
      else not (denied user.id p.id) && (shared_with user.id p.id || shared_with_teams? user p.id)
