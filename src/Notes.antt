-- ===== src/Notes.antt =====
-- projects/notes/notes.service.ts: the notes on an endpoint. The answer of the client to an id that
-- is not a number is an `Error`, outside of every `try` block.
pub mod Authors
mod Tests
use schematica_api.Common.{
  String, ℕ, Bool, true, false, not, ◌&&◌, Option, none, some, List, [], ◌∷◌, any, ◌==◌,
  if◌then◌else◌, Integer, is_nat, parse_int,
}
use schematica_api.Database.{Database, PrismaService}
use schematica_api.Entities.{Note}
use schematica_api.Events.{Event, Done, note_created, note_updated}
use schematica_api.Exceptions
use schematica_api.Exceptions.{
  Exception, Result, ok, throw, endpoint_not_found, note_not_found, forbidden,
  internal_server_error, error,
}
use schematica_api.Guards.{found, require}
use schematica_api.Prisma.Errors.{
  Try, fine, raise, Caught, app_error, attempt, or_not_found, or_raise, no_mappings,
  handle_prisma_error, try_catch, ◌>>=◌,
}
use schematica_api.User.{UserDto, admin, role_eq}

abbrev pub invalid_id : Exception
invalid_id = error "Invalid `prisma.note.findUnique()` invocation"

abbrev pub has_note_id : Integer → Note → Bool
has_note_id note_id n = is_nat note_id n.id

-- EndpointNotFoundException is passed on.
abbrev pub create_error : Caught → Exception
create_error (app_error (endpoint_not_found id)) = endpoint_not_found id
create_error e = internal_server_error "Failed to create note."

abbrev pub edited : String → Note → Note
edited content n = record n { content = content }

module _ (client : PrismaService) where
  unfoldable pub find_all_for_endpoint : Database → String → List Note
  find_all_for_endpoint db endpoint_id =
      client.note.find_many (λ n. n.endpoint_id == endpoint_id) db.notes

  abbrev pub new_note : String → String → UserDto → ℕ → Note
  new_note endpoint_id content user new_id = record {
    id = new_id;
    content = content;
    endpoint_id = endpoint_id;
    author_id = user.id;
  }

  unfoldable pub create : Database → String → String → UserDto → ℕ → Result (Done Note)
  create db endpoint_id content user new_id =
      try_catch
        (do
          endpoint ←
              or_raise (client.endpoint.find_first (λ e. e.id == endpoint_id) db.endpoints)
                (endpoint_not_found endpoint_id)
          notes ← attempt (
              client.note.create (any (λ u. u.id == user.id) db.users)
                (new_note endpoint_id content user new_id) db.notes)
          fine (record {
            db = record db { notes = notes };
            events =
                note_created user (new_note endpoint_id content user new_id) endpoint.project_id
                  endpoint_id
                ∷ [];
            value = new_note endpoint_id content user new_id;
          }))
        create_error

  -- The `try` block of `update`.
  unfoldable pub write_note : Database → Integer → String → UserDto → Try (Done Note)
  write_note db note_id content user = do
    written ← attempt (client.note.update true (has_note_id note_id) (edited content) db.notes)
    endpoint ←
        or_not_found
          (client.endpoint.find_first (λ e. e.id == (written.1).endpoint_id) db.endpoints)
    fine (record {
      db = record db { notes = written.0 };
      events = note_updated user written.1 endpoint.project_id endpoint.id ∷ [];
      value = written.1;
    })

  unfoldable pub update : Database → String → String → UserDto → Result (Done Note)
  update db note_id_str content user =
      Exceptions.◌>>=◌ (found (parse_int note_id_str) invalid_id) (λ note_id.
        Exceptions.◌>>=◌
          (found (client.note.find_first (has_note_id note_id) db.notes)
            (note_not_found note_id_str))
          (λ note.
            Exceptions.◌>>◌
              (require (note.author_id == user.id) (forbidden "You can only edit your own notes."))
              (try_catch (write_note db note_id content user) (λ e.
                handle_prisma_error e
                  (record no_mappings { missing = some (note_not_found note_id_str) })))))

  unfoldable pub remove : Database → String → UserDto → Result (Done (Unit {0}))
  remove db note_id_str user =
      Exceptions.◌>>=◌ (found (parse_int note_id_str) invalid_id) (λ note_id.
        Exceptions.◌>>=◌
          (found (client.note.find_first (has_note_id note_id) db.notes)
            (note_not_found note_id_str))
          (λ note.
            Exceptions.◌>>◌
              (require (not (not (role_eq user.role admin) && not (note.author_id == user.id)))
                (forbidden "You can only delete your own notes."))
              (try_catch
                (do
                  deleted ← attempt (client.note.delete (has_note_id note_id) db.notes)
                  fine (record { db = record db { notes = deleted.0 }; events = []; value = tt }))
                (λ e. handle_prisma_error e no_mappings))))
