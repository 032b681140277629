-- ===== src/Endpoints/Concurrency.antt =====
-- What the optimistic concurrency of `update` promises to the clients of the service.
use schematica_api.ApiLinting.{Linter}
use schematica_api.Common.{
  String, true, false, ◌≡◌, ◌≢◌, refl, sym, subst, none, some, [], ◌∷◌, find, any, ◌==◌, arith,
}
use schematica_api.Database.{Database, PrismaService, IsPrisma, memory_client, for_every_client}
use schematica_api.Endpoints.{
  UpdateEndpointDto, update, update_try, updated_endpoint, lint_operation, get_project_schemas,
}
use schematica_api.Endpoints.Update.{
  has_id, is_current, written, stale_in_memory, written_in_memory, fresh_in_memory,
}
use schematica_api.Entities.{Endpoint, User, endpoint_clash}
use schematica_api.Events.{Done, endpoint_updated}
use schematica_api.Exceptions.{Exception, Result, ok, throw, endpoint_concurrency}
use schematica_api.Exceptions
use schematica_api.Prisma.{replace_first, remove_first, has_clash}
use schematica_api.Prisma.Errors.{Caught, try_catch, Try, fine, raise, handle_prisma_error}
use schematica_api.User.{UserDto}

-- A linted operation that succeeds has a `try` body that does.
fine_from_ok {ℓ} :
    {A : Type ℓ} (m : Result (Unit {0})) (t : Try A) (handler : Caught → Exception) (a : A)
    → Exceptions.◌>>◌ m (try_catch t handler) ≡ ok a
    → t ≡ fine a
fine_from_ok (ok u) (fine b) handler a h = cc
fine_from_ok (ok u) (raise e) handler a h = cc
fine_from_ok (throw e) t handler a h = cc

tried :
    (spectral : Linter) (db : Database) (project_id endpoint_id : String) (dto : UpdateEndpointDto)
    (updater : UserDto) (now : String) (d : Done Endpoint)
    → update memory_client spectral db project_id endpoint_id dto updater now ≡ ok d
    → update_try memory_client db project_id endpoint_id dto updater now ≡ fine d
unfolding update
tried spectral db project_id endpoint_id dto updater now d h =
    fine_from_ok
      (lint_operation spectral dto.operation dto.path dto.method
        (get_project_schemas memory_client db project_id))
      (update_try memory_client db project_id endpoint_id dto updater now) _ d h

-- If the linter accepts the operation and no endpoint of the project has the id and the time of the
-- last update that the client names, `update` throws EndpointConcurrencyException, also where the
-- endpoint does not exist.
pub update_stale :
    (client : PrismaService)
    → IsPrisma client
    → (spectral : Linter) (db : Database) (project_id endpoint_id : String)
      (dto : UpdateEndpointDto) (updater : UserDto) (now : String)
    → lint_operation spectral dto.operation dto.path dto.method
        (get_project_schemas client db project_id)
      ≡ ok tt
    → find (is_current project_id endpoint_id dto.last_known_updated_at) db.endpoints ≡ none
    → update client spectral db project_id endpoint_id dto updater now ≡ throw endpoint_concurrency
unfolding update handle_prisma_error
update_stale client laws spectral db project_id endpoint_id dto updater now =
    for_every_client
      (λ c.
        lint_operation spectral dto.operation dto.path dto.method
            (get_project_schemas c db project_id)
          ≡ ok tt
        → find (is_current project_id endpoint_id dto.last_known_updated_at) db.endpoints ≡ none
        → update c spectral db project_id endpoint_id dto updater now ≡ throw endpoint_concurrency)
      client laws in_memory
  where
    in_memory :
        lint_operation spectral dto.operation dto.path dto.method
            (get_project_schemas memory_client db project_id)
          ≡ ok tt
        → find (is_current project_id endpoint_id dto.last_known_updated_at) db.endpoints ≡ none
        → update memory_client spectral db project_id endpoint_id dto updater now
          ≡ throw endpoint_concurrency
    in_memory linted stale =
        rw
          (linted, update, stale_in_memory spectral db project_id endpoint_id dto updater now stale)
          refl

-- If the linter accepts the operation, the endpoint, its creator and the updater exist, the endpoint
-- was last updated at the time that the client names, and no other endpoint has the new key, `update`
-- succeeds: it replaces that row by the updated one, leaves the rest of the database as it was, and
-- emits one update event with the old row and the new one.
pub update_current :
    (client : PrismaService)
    → IsPrisma client
    → (spectral : Linter) (db : Database) (project_id endpoint_id : String)
      (dto : UpdateEndpointDto) (updater : UserDto) (now : String) (existing row : Endpoint)
      (creator : User)
    → lint_operation spectral dto.operation dto.path dto.method
        (get_project_schemas client db project_id)
      ≡ ok tt
    → find (has_id project_id endpoint_id) db.endpoints ≡ some existing
    → find (λ u. u.id == existing.creator_id) db.users ≡ some creator
    → find (is_current project_id endpoint_id dto.last_known_updated_at) db.endpoints ≡ some row
    → any (λ u. u.id == updater.id) db.users ≡ true
    → any
        (endpoint_clash (updated_endpoint client dto updater creator.username existing now row))
        (remove_first (is_current project_id endpoint_id dto.last_known_updated_at) db.endpoints)
      ≡ false
    → update client spectral db project_id endpoint_id dto updater now
      ≡ ok (record {
        db = record db {
          endpoints =
              replace_first
                (is_current project_id endpoint_id dto.last_known_updated_at)
                (updated_endpoint client dto updater creator.username existing now row)
                db.endpoints;
        };
        events =
            endpoint_updated updater project_id existing
              (updated_endpoint client dto updater creator.username existing now row)
            ∷ [];
        value = updated_endpoint client dto updater creator.username existing now row;
      })
unfolding update
update_current client laws spectral db project_id endpoint_id dto updater now existing row creator
      linted found created_by current known clear =
    for_every_client
      (λ c.
        lint_operation spectral dto.operation dto.path dto.method
            (get_project_schemas c db project_id)
          ≡ ok tt
        → any (endpoint_clash (updated_endpoint c dto updater creator.username existing now row)) (
            remove_first (is_current project_id endpoint_id dto.last_known_updated_at) db.endpoints)
          ≡ false
        → update c spectral db project_id endpoint_id dto updater now
          ≡ ok (record {
            db = record db {
              endpoints =
                  replace_first (is_current project_id endpoint_id dto.last_known_updated_at)
                    (updated_endpoint c dto updater creator.username existing now row) db.endpoints;
            };
            events =
                endpoint_updated updater project_id existing
                  (updated_endpoint c dto updater creator.username existing now row)
                ∷ [];
            value = updated_endpoint c dto updater creator.username existing now row;
          }))
      client laws in_memory linted clear
  where
    in_memory :
        lint_operation spectral dto.operation dto.path dto.method
            (get_project_schemas memory_client db project_id)
          ≡ ok tt
        → any
            (endpoint_clash
              (updated_endpoint memory_client dto updater creator.username existing now row))
            (remove_first
              (is_current project_id endpoint_id dto.last_known_updated_at)
              db.endpoints)
          ≡ false
        → update memory_client spectral db project_id endpoint_id dto updater now
          ≡ ok (
              written spectral db project_id endpoint_id dto updater now existing row creator found
                created_by current)
    in_memory accepted free =
        rw
          (
            accepted,
            update,
            written_in_memory spectral db project_id endpoint_id dto updater now existing row
                creator found created_by current free known,
          )
          refl

-- No lost update: once an update that names the time of the last update has succeeded, no other
-- update that names the same time succeeds, provided the endpoints obeyed the unique constraints and
-- the clock has moved.
pub update_once :
    (client : PrismaService)
    → IsPrisma client
    → (spectral : Linter) (db : Database) (project_id endpoint_id : String)
      (dto other_dto : UpdateEndpointDto) (updater other : UserDto) (now later : String)
      (d d' : Done Endpoint)
    → has_clash endpoint_clash db.endpoints ≡ false
    → now ≢ dto.last_known_updated_at
    → other_dto.last_known_updated_at ≡ dto.last_known_updated_at
    → update client spectral db project_id endpoint_id dto updater now ≡ ok d
    → update client spectral d.db project_id endpoint_id other_dto other later ≢ ok d'
update_once client laws spectral db project_id endpoint_id dto other_dto updater other now later d
      d' clean new same =
    for_every_client
      (λ c.
        update c spectral db project_id endpoint_id dto updater now ≡ ok d
        → update c spectral d.db project_id endpoint_id other_dto other later ≢ ok d')
      client laws in_memory
  where
    in_memory :
        update memory_client spectral db project_id endpoint_id dto updater now ≡ ok d
        → update memory_client spectral d.db project_id endpoint_id other_dto other later ≢ ok d'
    in_memory first second = ground (
      arith,
      tried spectral d.db project_id endpoint_id other_dto other later d' second,
      stale_in_memory spectral d.db project_id endpoint_id other_dto other later (
          subst (λ at. find (is_current project_id endpoint_id at) (d.db).endpoints ≡ none)
            (sym same)
            (fresh_in_memory spectral db project_id endpoint_id dto updater now d clean new
              (tried spectral db project_id endpoint_id dto updater now d first))),
    )
