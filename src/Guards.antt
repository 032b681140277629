-- ===== src/Guards.antt =====
-- The guards that decide whether a request reaches its handler: projects/guards, locking/guards,
-- projects/notes/guards and common/guards. A guard that lets the request pass answers true.
pub mod Rules
mod Tests
use schematica_api.Access.{Grants, can_own_project, can_view_project}
use schematica_api.Common.{
  String, ℕ, Bool, true, false, not, ◌&&◌, ◌||◌, Option, none, some, List, [], ◌∷◌, any, length,
  ◌==◌, nat_eq, if◌then◌else◌, template, Integer, is_nat, parse_int, print_nat,
}
use schematica_api.Database.{Database, PrismaService}
use schematica_api.Entities.{Endpoint, Note, Environment, Secret}
use schematica_api.Exceptions.{
  Exception, Result, ok, throw, forbidden, not_found, bad_request, project_not_found,
  note_not_found, note_permission, endpoint_not_found, endpoint_not_found_in_project, error,
}
use schematica_api.Exceptions.{◌>>=◌, ◌>>◌}
use schematica_api.Locking.{LockingService, is_locked_by}
use schematica_api.User.{UserDto, Role, admin, member, role_eq}
use schematica_api.Users.{truthy}

-- `if (!condition) throw …`
abbrev pub require : Bool → Exception → Result (Unit {0})
require true e = ok tt
require false e = throw e

-- `if (!value) throw …`, for a text
abbrev pub given : Option String → Exception → Result String
given none e = throw e
given (some s) e = if s == "" then throw e else ok s

abbrev pub logged_in : Option UserDto → Result UserDto
logged_in none = throw (forbidden "Authentication credentials were not provided.")
logged_in (some user) = ok user

unfoldable pub project_creation_guard : Option UserDto → Result Bool
project_creation_guard request_user = do
  user ← logged_in request_user
  require (role_eq user.role admin || role_eq user.role member)
      (forbidden "You do not have permission to create a new project.")
  ok true

-- `requiredRoles` is none where the handler and its class name no roles.
unfoldable pub roles_guard : Option (List Role) → Option UserDto → Result Bool
roles_guard none request_user = ok true
roles_guard (some []) request_user = ok true
roles_guard (some (r ∷ rs)) request_user = do
  user ← logged_in request_user
  require (any (λ role. role_eq user.role role) (r ∷ rs))
      (forbidden "You do not have permission to perform this action.")
  ok true

unfoldable pub lock_owner_guard : Option String → UserDto → ℕ → LockingService → Result Bool
lock_owner_guard endpoint_id user now locking = do
  id ← given endpoint_id (error "LockOwnerGuard expects an endpointId route parameter.")
  require (is_locked_by id user.id now locking)
      (forbidden "You must acquire a lock on this endpoint before you can save changes.")
  ok true

-- A row that a parent relates to a child.
pub data ParentModel : Type 0 where
  project_model environment_model : ParentModel
  -- any other model
  other_model : String → ParentModel

pub record ResourceRelationsConfig : Type 0 where
  pub parent_model : ParentModel
  pub parent_param : String
  pub child_model_name : Option String
  pub child_param : String
  pub child_param_is_int : Bool

pub data ChildId : Type 0 where
  text_id : String → ChildId
  int_id : Integer → ChildId

abbrev pub missing_parameters : ResourceRelationsConfig → Exception
missing_parameters config = error (
    template (
      "ResourceRelationsGuard is missing required URL parameters: '" ∷ config.parent_param
      ∷ "' or '" ∷ config.child_param ∷ "'." ∷ []))

abbrev pub show_id : ChildId → String
show_id (text_id s) = s
show_id (int_id i) =
    if i.is_negative then template ("-" ∷ print_nat i.magnitude ∷ []) else print_nat i.magnitude

abbrev pub model_name : ParentModel → String
model_name project_model = "Project"
model_name environment_model = "Environment"
model_name (other_model name) = name

abbrev pub read_id : ResourceRelationsConfig → String → Result ChildId
read_id config child =
    if config.child_param_is_int
    then elim (parse_int child) [
      | none ↦ throw (
          not_found
            (template ("Invalid ID format for parameter \"" ∷ config.child_param ∷ "\"." ∷ [])))
      | some i ↦ ok (int_id i)
    ]
    else ok (text_id child)

-- `if (!value) throw …`, for a row or a number
abbrev pub found {ℓ} : {A : Type ℓ} → Option A → Exception → Result A
found none e = throw e
found (some a) e = ok a

module _ (client : PrismaService) where
  unfoldable pub project_owner_guard : Database → Option UserDto → Option String → Result Bool
  project_owner_guard db request_user project_id = do
    user ← logged_in request_user
    id ← given project_id (not_found "Project ID not found in request parameters.")
    require (can_own_project db.grants client.project user id)
        (forbidden "You do not have permission to perform this action.")
    ok true

  unfoldable pub project_viewer_guard : Database → UserDto → Option String → Result Bool
  project_viewer_guard db user project_id = do
    id ← given project_id (error "ProjectViewerGuard expects a projectId route parameter.")
    require (can_view_project db.grants client.project user id) (project_not_found id)
    ok true

  unfoldable pub endpoint_project_match_guard :
      Database → Option String → Option String → Result Bool
  endpoint_project_match_guard db project_id endpoint_id = do
    project ←
        given project_id
          (error "EndpointProjectMatchGuard requires both projectId and endpointId params.")
    endpoint ←
        given endpoint_id
          (error "EndpointProjectMatchGuard requires both projectId and endpointId params.")
    require
        (not (
          nat_eq
            (client.endpoint.count (λ e. e.id == endpoint && e.project_id == project) db.endpoints)
            0))
        (endpoint_not_found_in_project endpoint project)
    ok true

  -- The project of a note's endpoint, none where the note does not exist.
  project_of_note : Database → Integer → Option String
  project_of_note db note_id = elim (client.note.find_first (λ n. is_nat note_id n.id) db.notes) [
    | none ↦ none
    | some n ↦ elim (client.endpoint.find_first (λ e. e.id == n.endpoint_id) db.endpoints) [
      | none ↦ none
      | some e ↦ some e.project_id
    ]
  ]

  project_of_endpoint : Database → Option String → Result String
  project_of_endpoint db endpoint_id = do
    id ← given endpoint_id (forbidden "Could not determine the project for this resource.")
    e ← found (client.endpoint.find_first (λ e. e.id == id) db.endpoints) (endpoint_not_found id)
    ok e.project_id

  unfoldable pub get_project_id_from_request :
      Database → Option String → Option String → Result String
  unfolding project_of_note project_of_endpoint
  get_project_id_from_request db endpoint_id none = project_of_endpoint db endpoint_id
  get_project_id_from_request db endpoint_id (some note) =
      if truthy (some note)
      then (do
        note_id ← found (parse_int note) (bad_request "Invalid Note ID format.")
        found (project_of_note db note_id) (note_not_found note))
      else project_of_endpoint db endpoint_id

  -- `is_read` says whether the method is GET.
  unfoldable pub note_permission_guard :
      Database → UserDto → Option String → Option String → Bool → Result Bool
  note_permission_guard db user endpoint_id note_id is_read =
      if role_eq user.role admin then ok true else (do
        project_id ← get_project_id_from_request db endpoint_id note_id
        require
            (if is_read
              then can_view_project db.grants client.project user project_id
              else can_own_project db.grants client.project user project_id)
            note_permission
        ok true)

  -- `{ id: parentId, [relationName]: { some: { id: childId } } }`, for the two relations that the
  -- controllers name: the environments of a project and the secrets of an environment.
  unfoldable pub count_related : Database → ParentModel → String → ChildId → Result ℕ
  count_related db project_model parent (text_id child) = ok (
      client.project.count
        (λ p. p.id == parent && any (λ e. e.project_id == p.id && e.id == child) db.environments)
        (db.grants).projects)
  count_related db environment_model parent (int_id child) = ok (
      client.environment.count
        (λ v. v.id == parent && any (λ s. s.environment_id == v.id && is_nat child s.id) db.secrets)
        db.environments)
  count_related db (other_model name) parent child = throw (
      error (
        template (
          "ResourceRelationsGuard is not configured for the model: '" ∷ name
          ∷ "'. Please update the guard." ∷ [])))
  count_related db _ parent child = throw (error "Invalid invocation")

  unfoldable pub resource_relations_guard :
      Database → Option ResourceRelationsConfig → Option String → Option String → Result Bool
  resource_relations_guard db none parent_id child_id = ok true
  resource_relations_guard db (some config) parent_id child_id = do
    parent ← given parent_id (missing_parameters config)
    child ← given child_id (missing_parameters config)
    id ← read_id config child
    count ← count_related db config.parent_model parent id
    require (not (nat_eq count 0)) (
        not_found (
          template (
            (if truthy config.child_model_name then name_of config.child_model_name else "Resource")
            ∷ " with ID '"
            ∷ show_id id
            ∷ "' was not found in "
            ∷ model_name config.parent_model
            ∷ " '"
            ∷ parent
            ∷ "'."
            ∷ [])))
    ok true
    where
      name_of : Option String → String
      name_of none = ""
      name_of (some s) = s
