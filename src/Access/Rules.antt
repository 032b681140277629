-- ===== src/Access/Rules.antt =====
-- Who may own and who may see a project, stated on the rows.
use schematica_api.Common.{
  String, Bool, true, not, ◌&&◌, ◌||◌, ◌≡◌, ◌↔◌, ◌⊎◌, refl, eq_iff, arith, Option, none, some, List,
  [], ◌∷◌, In, any, any-In_iff, any-In_complete, any-keep, keep, length, ◌==◌, ltb, subst, sym,
}
use schematica_api.Access.{
  Grants, is_one_of, owned_by, shared_with, owned_by_team, shared_with_team, denied,
  can_own_project, can_view_project, access_control_where_clause,
}
use schematica_api.Entities.{
  Project, UserProjectAccess, TeamProjectAccess, DeniedUser, AccessType, owner, project_clash,
}
use schematica_api.Prisma.{Delegate, IsDelegate, IsDelegate-eq, in_memory}
use schematica_api.User.{UserDto, admin, role_eq_iff, team_ids, TeamDto}

-- The rows that give a user access to a project, alone or through a team, as owner or at all.
abbrev pub HasUserAccess : Grants → UserDto → String → (AccessType → Type 0) → Type 0
HasUserAccess g user project_id Fits =
    (a : UserProjectAccess) × In a g.user_accesses
    × ((a.project_id ≡ project_id) × (a.user_id ≡ user.id) × Fits a.type)

abbrev pub HasTeamAccess : Grants → UserDto → String → (AccessType → Type 0) → Type 0
HasTeamAccess g user project_id Fits =
    (a : TeamProjectAccess) × In a g.team_accesses
    × ((a.project_id ≡ project_id) × In a.team_id (team_ids user) × Fits a.type)

abbrev pub IsDenied : Grants → UserDto → String → Type 0
IsDenied g user project_id =
    (d : DeniedUser) × In d g.denied_users × ((d.project_id ≡ project_id) × (d.user_id ≡ user.id))

abbrev pub Exists : Grants → String → Type 0
Exists g project_id = (p : Project) × In p g.projects × (p.id ≡ project_id)

abbrev IsAny : AccessType → Type 0
IsAny type = Unit

abbrev IsOwner : AccessType → Type 0
IsOwner type = type ≡ owner

-- Admins own everything, others the existing projects on which they or a team of theirs is an owner.
abbrev pub MayOwn : Grants → UserDto → String → Type 0
MayOwn g user project_id =
    (user.role ≡ admin)
    ⊎ (Exists g project_id
        × (HasUserAccess g user project_id IsOwner ⊎ HasTeamAccess g user project_id IsOwner))

-- Admins see everything, others the existing projects that they or a team of theirs has any access
-- to and that they are not denied.
abbrev pub MayView : Grants → UserDto → String → Type 0
MayView g user project_id =
    (user.role ≡ admin)
    ⊎ (Exists g project_id
        × (¬ IsDenied g user project_id)
        × (HasUserAccess g user project_id IsAny ⊎ HasTeamAccess g user project_id IsAny))

is_one_of_iff : (id : String) (ids : List String) → (is_one_of id ids ≡ true) ↔ In id ids
is_one_of_iff id [] = (λ h. cc, λ h. absurd h)
is_one_of_iff id (x ∷ ids) = ground (arith, eq_iff x id, is_one_of_iff id ids)

module _ (g : Grants) (user : UserDto) (project_id : String) where
  shared_with_iff :
      (shared_with g user.id project_id ≡ true) ↔ HasUserAccess g user project_id IsAny
  shared_with_iff =
      any-In_iff _ _ (λ a. ground (arith, eq_iff a.project_id project_id, eq_iff a.user_id user.id))
        g.user_accesses

  owned_by_iff : (owned_by g user.id project_id ≡ true) ↔ HasUserAccess g user project_id IsOwner
  owned_by_iff =
      any-In_iff _ _ (λ a. ground (arith, eq_iff a.project_id project_id, eq_iff a.user_id user.id))
        g.user_accesses

  shared_with_team_iff :
      (shared_with_team g (team_ids user) project_id ≡ true) ↔ HasTeamAccess g user project_id IsAny
  shared_with_team_iff =
      any-In_iff _ _
        (λ a.
          ground (arith, eq_iff a.project_id project_id, is_one_of_iff a.team_id (team_ids user)))
        g.team_accesses

  owned_by_team_iff :
      (owned_by_team g (team_ids user) project_id ≡ true) ↔ HasTeamAccess g user project_id IsOwner
  owned_by_team_iff =
      any-In_iff _ _
        (λ a.
          ground (arith, eq_iff a.project_id project_id, is_one_of_iff a.team_id (team_ids user)))
        g.team_accesses

  denied_iff : (denied g user.id project_id ≡ true) ↔ IsDenied g user project_id
  denied_iff =
      any-In_iff _ _ (λ d. ground (arith, eq_iff d.project_id project_id, eq_iff d.user_id user.id))
        g.denied_users

-- A count over the projects with an id, and a condition on the id.
count_iff :
    (B : String → Bool) (H : String → Type 0)
    → ((x : String) → (B x ≡ true) ↔ H x)
    → (project_id : String) (ps : List Project)
    → (ltb 0 (length (keep (λ p. p.id == project_id && B p.id) ps)) ≡ true)
      ↔ (((p : Project) × In p ps × (p.id ≡ project_id)) × H project_id)
count_iff B H decides project_id ps = (
  λ h. let (p, i, q) = rows.0 (rw (any-keep test ps) at h) in ((p, i, q.0), subst H q.0 q.1),
  λ h. rw (any-keep test ps) (rows.1 (h.0.0, h.0.1, (h.0.2, subst H (sym h.0.2) h.1))),
)
  where
    test : Project → Bool
    test p = p.id == project_id && B p.id

    rows : (any test ps ≡ true) ↔ ((p : Project) × In p ps × ((p.id ≡ project_id) × H p.id))
    rows = any-In_iff test _ (λ p. ground (arith, eq_iff p.id project_id, decides p.id)) ps

module _ (g : Grants) (user : UserDto) where
  own_row_iff :
      (x : String)
      → ((owned_by g user.id x || owned_by_team g (team_ids user) x) ≡ true)
        ↔ (HasUserAccess g user x IsOwner ⊎ HasTeamAccess g user x IsOwner)
  own_row_iff x = ground (arith, owned_by_iff g user x, owned_by_team_iff g user x)

  view_row_iff :
      (x : String)
      → ((not (denied g user.id x)
            && (shared_with g user.id x || shared_with_team g (team_ids user) x))
          ≡ true)
        ↔ ((¬ IsDenied g user x) × (HasUserAccess g user x IsAny ⊎ HasTeamAccess g user x IsAny))
  view_row_iff x =
      ground (arith, denied_iff g user x, shared_with_iff g user x, shared_with_team_iff g user x)

  own_in_memory :
      (project_id : String)
      → (can_own_project g (in_memory project_clash) user project_id ≡ true)
        ↔ MayOwn g user project_id
  unfolding can_own_project
  own_in_memory project_id =
      ground (arith, role_eq_iff user.role admin, count_iff _ _ own_row_iff project_id g.projects)

  view_in_memory :
      (project_id : String)
      → (can_view_project g (in_memory project_clash) user project_id ≡ true)
        ↔ MayView g user project_id
  unfolding can_view_project
  view_in_memory project_id =
      ground (arith, role_eq_iff user.role admin, count_iff _ _ view_row_iff project_id g.projects)

-- `canOwnProject` answers true exactly for the users who may own the project, with any client that
-- behaves as documented.
pub can_own_project_iff :
    (g : Grants) (client : Delegate Project) (user : UserDto) (project_id : String)
    → IsDelegate project_clash client
    → (can_own_project g client user project_id ≡ true) ↔ MayOwn g user project_id
can_own_project_iff g client user project_id laws =
    rw (IsDelegate-eq project_clash client laws) (own_in_memory g user project_id)

-- `canViewProject` answers true exactly for the users who may see the project, with any client that
-- behaves as documented.
pub can_view_project_iff :
    (g : Grants) (client : Delegate Project) (user : UserDto) (project_id : String)
    → IsDelegate project_clash client
    → (can_view_project g client user project_id ≡ true) ↔ MayView g user project_id
can_view_project_iff g client user project_id laws =
    rw (IsDelegate-eq project_clash client laws) (view_in_memory g user project_id)

with_teams : UserDto → Option (List TeamDto) → UserDto
with_teams user teams = record user { teams = teams }

where_clause_loaded :
    (g : Grants) (user : UserDto) (teams : List TeamDto) (p : Project)
    → In p g.projects
    → (access_control_where_clause g (with_teams user (some teams)) p ≡ true)
      ↔ MayView g (with_teams user (some teams)) p.id
unfolding access_control_where_clause with_teams
where_clause_loaded g user teams p i =
    let there : Exists g p.id = (p, i, refl) in
    ground (
      arith,
      there,
      role_eq_iff user.role admin,
      view_row_iff g (record user { teams = some teams }) p.id,
    )

-- The filter of `ProjectsService` selects exactly the projects that the rule of `canViewProject` lets
-- the user see, where the user's teams are loaded.
pub access_control_where_clause_iff :
    (g : Grants) (user : UserDto) (teams : List TeamDto) (p : Project)
    → user.teams ≡ some teams
    → In p g.projects
    → (access_control_where_clause g user p ≡ true) ↔ MayView g user p.id
unfolding with_teams
access_control_where_clause_iff g user teams p loaded i =
    subst (λ u. (access_control_where_clause g u p ≡ true) ↔ MayView g u p.id)
      (λ j. record user { teams = sym loaded j }) (where_clause_loaded g user teams p i)

-- Where the teams are not loaded, the filter passes every project that any team has access to: the
-- condition on the team's id is undefined, so it is dropped.
pub access_control_where_clause_without_teams :
    (g : Grants) (user : UserDto) (p : Project) (a : TeamProjectAccess)
    → user.teams ≡ none
    → ¬ IsDenied g user p.id
    → In a g.team_accesses
    → a.project_id ≡ p.id
    → access_control_where_clause g user p ≡ true
unfolding access_control_where_clause
access_control_where_clause_without_teams g user p a unloaded allowed i same =
    let shared : any (λ x. x.project_id == p.id) g.team_accesses ≡ true =
      any-In_complete _ a g.team_accesses i ((eq_iff a.project_id p.id).1 same) in
    ground (arith, shared, denied_iff g user p.id)
