-- ===== src/Changelog/Entries.antt =====
-- What the update of an endpoint leaves in the changelog.
use schematica_api.Changelog.{
  get_operation_summary, same_text, update_messages, is_linked, create_changelog_entry,
  create_entries, handle_endpoint_updated,
}
use schematica_api.Common.{
  String, ℕ, true, false, ◌≡◌, ◌↔◌, inl, inr, refl, sym, ap, ◌∙◌, arith, some, List, [], ◌∷◌, ◌++◌,
  map, any, All, ◌==◌, eq_iff, nat_eq, Bool-cases,
}
use schematica_api.Database.{Database, PrismaService, IsPrisma, memory_client, for_every_client}
use schematica_api.Entities.{Changelog, Endpoint, status_eq}
use schematica_api.User.{UserDto}

-- The number of a new row is that of no row.
abbrev pub IsSequence : (List Changelog → ℕ) → Type 0
IsSequence next_id = (rows : List Changelog) → any (λ r. nat_eq (next_id rows) r.id) rows ≡ false

abbrev pub IsEntry : String → String → String → ℕ → Changelog → Type 0
IsEntry project_id related_id actor_id now l =
    (l.project_id ≡ project_id)
    × (l.related_id ≡ related_id)
    × (l.actor_id ≡ some actor_id)
    × (l.created_at ≡ now)

-- Entries with the messages are added, in their order, and nothing else changes.
abbrev pub IsRecorded : Database → String → String → String → ℕ → List String → Database → Type 0
IsRecorded db project_id related_id actor_id now messages db' =
    (added : List Changelog) × (db' ≡ record db { changelogs = db.changelogs ++ added })
    × (map (λ l. l.message) added ≡ messages)
    × All (IsEntry project_id related_id actor_id now) added

append_nil : {A : Type 0} (xs : List A) → xs ++ [] ≡ xs
append_nil [] = refl
append_nil (x ∷ xs) = ap (λ t. x ∷ t) (append_nil xs)

append_one : {A : Type 0} (xs : List A) (y : A) (ys : List A) → (xs ++ y ∷ []) ++ ys ≡ xs ++ y ∷ ys
append_one [] y ys = refl
append_one (x ∷ xs) y ys = ap (λ t. x ∷ t) (append_one xs y ys)

module _ (next_id : List Changelog → ℕ) (sequence : IsSequence next_id) (now : ℕ)
    (project_id related_id actor_id : String) where
  abbrev entry : Database → String → Changelog
  entry db message = record {
    id = next_id db.changelogs;
    project_id = project_id;
    related_id = related_id;
    message = message;
    actor_id = some actor_id;
    created_at = now;
  }

  create_entries-IsRecorded :
      (messages : List String) (db : Database)
      → is_linked memory_client next_id now db project_id actor_id ≡ true
      → IsRecorded db project_id related_id actor_id now messages
          (create_entries memory_client next_id now db project_id related_id messages actor_id)
  unfolding create_entries create_changelog_entry
  create_entries-IsRecorded [] db linked =
      ([], ap (λ rows. record db { changelogs = rows }) (sym (append_nil db.changelogs)), refl, tt)
  create_entries-IsRecorded (message ∷ messages) db linked =
      let (added, e, same, about) =
        create_entries-IsRecorded messages
          (record db { changelogs = db.changelogs ++ entry db message ∷ [] }) linked in
      rw (create_entries, create_changelog_entry, linked, sequence db.changelogs)
        (
          entry db message ∷ added,
          e
              ∙ ap (λ rows. record db { changelogs = rows })
                  (append_one db.changelogs (entry db message) added),
          ap (λ t. message ∷ t) same,
          ((refl, refl, refl, refl), about),
        )

-- Nothing that the changelog shows has changed.
abbrev pub IsSame : Endpoint → Endpoint → Type 0
IsSame before after =
    (before.path ≡ after.path)
    × (before.method ≡ after.method)
    × (same_text (get_operation_summary before.operation) (get_operation_summary after.operation)
        ≡ true)
    × (status_eq before.status after.status ≡ true)

update_messages_iff :
    (actor : UserDto) (before after : Endpoint)
    → (update_messages actor before after ≡ []) ↔ IsSame before after
unfolding update_messages
update_messages_iff actor before after = elim (Bool-cases (before.path == after.path)) [
  | inr path ↦ ground (arith, path, eq_iff before.path after.path)
  | inl path ↦ elim (Bool-cases (before.method == after.method)) [
    | inr method ↦ ground (arith, path, method, eq_iff before.method after.method)
    | inl method ↦
        elim (Bool-cases (
          same_text (get_operation_summary before.operation)
            (get_operation_summary after.operation))) [
              | inr summary ↦ ground (arith, path, method, summary)
              | inl summary ↦ ground (
                arith,
                path,
                method,
                summary,
                eq_iff before.path after.path,
                eq_iff before.method after.method,
              )
            ]
  ]
]

updated_in_memory :
    (next_id : List Changelog → ℕ) (now : ℕ) (db : Database) (actor : UserDto) (project_id : String)
    (before after : Endpoint)
    → IsSequence next_id
    → is_linked memory_client next_id now db project_id actor.id ≡ true
    → IsRecorded db project_id after.id actor.id now
        (update_messages actor before after)
        (handle_endpoint_updated memory_client next_id now db actor project_id before after)
unfolding handle_endpoint_updated
updated_in_memory next_id now db actor project_id before after sequence linked =
    create_entries-IsRecorded next_id sequence now project_id after.id actor.id
      (update_messages actor before after) db linked

-- Where the project and the actor exist, the update of an endpoint adds an entry of the project, the
-- endpoint, the actor and the time for each of its messages, and changes nothing else; and there is
-- no message exactly if path, method, summary and status are as before.
pub handle_endpoint_updated-IsRecorded :
    (client : PrismaService)
    → IsPrisma client
    → (next_id : List Changelog → ℕ) (now : ℕ) (db : Database) (actor : UserDto)
      (project_id : String) (before after : Endpoint)
    → IsSequence next_id
    → is_linked client next_id now db project_id actor.id ≡ true
    → IsRecorded db project_id after.id actor.id now
        (update_messages actor before after)
        (handle_endpoint_updated client next_id now db actor project_id before after)
      × ((update_messages actor before after ≡ []) ↔ IsSame before after)
handle_endpoint_updated-IsRecorded client laws next_id now db actor project_id before after sequence
      linked =
    (
      for_every_client
          (λ c.
            IsRecorded db project_id after.id actor.id now (update_messages actor before after)
              (handle_endpoint_updated c next_id now db actor project_id before after))
          client laws
          (updated_in_memory next_id now db actor project_id before after sequence linked),
      update_messages_iff actor before after,
    )
