-- ===== src/Changelog.antt =====
-- changelog/changelog.listener.ts and changelog/changelog.service.ts: what is recorded of the changes
-- of endpoints, and the page of the records. The number that the database gives to a new row is a
-- parameter, a function of the rows. A record that cannot be written is logged, and nothing else.
pub mod Entries
mod Tests
use schematica_api.Common.{
  String, ℕ, Bool, true, false, not, ◌&&◌, ◌||◌, Option, none, some, List, [], ◌∷◌, ◌++◌, any, ◌==◌,
  leb, if◌then◌else◌, template, to_upper_case,
}
use schematica_api.Database.{Database, PrismaService}
use schematica_api.Endpoints.Listing.{property}
use schematica_api.Entities.{
  Changelog, Endpoint, EndpointStatus, draft, in_review, published, deprecated, status_eq,
}
use schematica_api.Json.{Value, str}
use schematica_api.Pagination.{PaginationQueryDto, PaginatedServiceResponse, OrderBy, paginated}
use schematica_api.Prisma.Errors.{Outcome, done, failed}
use schematica_api.User.{UserDto}
use schematica_api.Users.Sanitized.{SanitizedUserDto, included}

pub record ChangelogDto : Type 0 where
  pub id : ℕ
  pub message : String
  pub created_at : ℕ
  pub actor : Option SanitizedUserDto

abbrev pub status_text : EndpointStatus → String
status_text draft = "DRAFT"
status_text in_review = "IN_REVIEW"
status_text published = "PUBLISHED"
status_text deprecated = "DEPRECATED"

-- `getOperationSummary`
unfoldable pub get_operation_summary : Value → Option String
get_operation_summary operation = elim (property "summary" operation) [
  | some (str summary) ↦ some summary
  | _ ↦ none
]

abbrev pub same_text : Option String → Option String → Bool
same_text none none = true
same_text (some a) (some b) = a == b
same_text _ _ = false

-- `'METHOD /path'`
abbrev pub shown : String → String → String
shown method path = template (to_upper_case method ∷ " " ∷ path ∷ [])

abbrev pub when : Bool → String → List String
when true message = message ∷ []
when false message = []

abbrev status_message : UserDto → String → String → EndpointStatus → EndpointStatus → String
status_message actor method path from_status to_status = template (
    "User '"
    ∷ actor.username
    ∷ "' changed status of endpoint "
    ∷ shown method path
    ∷ " from '"
    ∷ status_text from_status
    ∷ "' to '"
    ∷ status_text to_status
    ∷ "'."
    ∷ [])

-- The messages of `handleEndpointUpdated`.
unfoldable pub update_messages : UserDto → Endpoint → Endpoint → List String
unfolding get_operation_summary
update_messages actor before after =
    when (not (before.path == after.path) || not (before.method == after.method)) (
      template (
        "User '"
        ∷ actor.username
        ∷ "' changed endpoint "
        ∷ shown before.method before.path
        ∷ " to "
        ∷ shown after.method after.path
        ∷ "."
        ∷ []))
    ++ when
        (not (
          same_text (get_operation_summary before.operation)
            (get_operation_summary after.operation)))
        (template (
          "User '"
          ∷ actor.username
          ∷ "' updated the summary for endpoint "
          ∷ shown after.method after.path
          ∷ "."
          ∷ []))
    ++ when (not (status_eq before.status after.status))
        (status_message actor after.method after.path before.status after.status)

abbrev or_unchanged : Database → Outcome (List Changelog) → Database
or_unchanged db (done rows) = record db { changelogs = rows }
or_unchanged db (failed code) = db

module _ (client : PrismaService) (next_id : List Changelog → ℕ) (now : ℕ) where
  -- The project and the actor of the record exist.
  abbrev pub is_linked : Database → String → String → Bool
  is_linked db project_id actor_id =
      any (λ p. p.id == project_id) db.projects && any (λ u. u.id == actor_id) db.users

  unfoldable pub create_changelog_entry : Database → String → String → String → String → Database
  create_changelog_entry db project_id related_id message actor_id = or_unchanged db (
      client.changelog.create (is_linked db project_id actor_id)
        (record {
          id = next_id db.changelogs;
          project_id = project_id;
          related_id = related_id;
          message = message;
          actor_id = some actor_id;
          created_at = now;
        })
        db.changelogs)

  -- `Promise.all(messages.map(…))`, one after the other
  unfoldable pub create_entries : Database → String → String → List String → String → Database
  unfolding create_changelog_entry
  create_entries db project_id related_id [] actor_id = db
  create_entries db project_id related_id (message ∷ messages) actor_id =
      create_entries (create_changelog_entry db project_id related_id message actor_id) project_id
        related_id messages actor_id

  unfoldable pub handle_endpoint_created :
      Database → UserDto → String → String → String → String → Database
  unfolding create_changelog_entry
  handle_endpoint_created db actor project_id endpoint_id method path =
      create_changelog_entry db project_id endpoint_id
        (template ("User '" ∷ actor.username ∷ "' added endpoint " ∷ shown method path ∷ "." ∷ []))
        actor.id

  unfoldable pub handle_endpoint_updated :
      Database → UserDto → String → Endpoint → Endpoint → Database
  unfolding create_entries update_messages
  handle_endpoint_updated db actor project_id before after =
      create_entries db project_id after.id (update_messages actor before after) actor.id

  unfoldable pub handle_endpoint_status_updated :
      Database → UserDto → String → Endpoint → EndpointStatus → EndpointStatus → Database
  unfolding create_changelog_entry
  handle_endpoint_status_updated db actor project_id endpoint from_status to_status =
      create_changelog_entry db project_id endpoint.id
        (status_message actor endpoint.method endpoint.path from_status to_status) actor.id

  unfoldable pub handle_endpoint_deleted :
      Database → UserDto → String → String → String → String → Database
  unfolding create_changelog_entry
  handle_endpoint_deleted db actor project_id endpoint_id method path =
      create_changelog_entry db project_id endpoint_id
        (template
          ("User '" ∷ actor.username ∷ "' deleted endpoint " ∷ shown method path ∷ "." ∷ []))
        actor.id

abbrev pub changelog_dto : PrismaService → Database → Changelog → ChangelogDto
changelog_dto client db log = record {
  id = log.id;
  message = log.message;
  created_at = log.created_at;
  actor = included client db log.actor_id;
}

-- `orderBy: { createdAt: 'desc' }`
abbrev pub newest_first : Changelog → Changelog → Bool
newest_first a b = leb b.created_at a.created_at

unfoldable pub find_all_for_project :
    PrismaService
    → OrderBy
    → Database
    → String
    → PaginationQueryDto
    → PaginatedServiceResponse ChangelogDto
find_all_for_project client order_by db project_id query =
    paginated (changelog_dto client db)
      (order_by Changelog newest_first
        (client.changelog.find_many (λ l. l.project_id == project_id) db.changelogs))
      (client.changelog.count (λ l. l.project_id == project_id) db.changelogs) query
