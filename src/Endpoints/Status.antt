-- ===== src/Endpoints/Status.antt =====
-- `updateStatus`: the read of the endpoint and the transaction that writes the status are apart, so
-- other requests may run between them; `before` is the database at the read, `db` at the write.
use schematica_api.Common.{
  String, Bool, true, false, ◌&&◌, ◌≡◌, refl, eq_iff, arith, some, List, [], ◌∷◌, any, find, ◌==◌,
  nat_eq, if◌then◌else◌,
}
use schematica_api.Database.{Database, PrismaService, IsPrisma, memory_client, for_every_client}
use schematica_api.Entities.{Endpoint, EndpointStatus, in_review, status_eq, endpoint_clash}
use schematica_api.Events.{Event, Done, endpoint_status_updated, review_requested, audit}
use schematica_api.Exceptions.{
  Exception, Result, ok, throw, endpoint_not_found, endpoint_status_concurrency, bad_request,
  forbidden,
}
use schematica_api.Prisma.{patch_all, has_clash}
use schematica_api.Prisma.Errors.{
  Try, fine, raise, Caught, app_error, attempt, or_not_found, no_mappings, handle_prisma_error,
  try_catch, ◌>>=◌, ◌>>◌,
}
use schematica_api.Prisma.Tables.{
  has_clash-patch_all, length-keep_none, length-keep_some, find-some, any-patch_all,
}
use schematica_api.User.{UserDto}

abbrev pub has_id : String → String → Endpoint → Bool
has_id project_id endpoint_id e = e.id == endpoint_id && e.project_id == project_id

-- `{ id: endpointId, status: currentStatus }`
abbrev pub still_has : String → EndpointStatus → Endpoint → Bool
still_has endpoint_id status e = e.id == endpoint_id && status_eq e.status status

abbrev pub with_status : EndpointStatus → UserDto → String → Endpoint → Endpoint
with_status status user now e = record e {
  status = status;
  updated_by_id = user.id;
  updated_at = now;
}

abbrev pub status_events : UserDto → String → Endpoint → EndpointStatus → List Event
status_events user project_id e status =
    audit user "ENDPOINT_STATUS_UPDATED" e.id
    ∷ endpoint_status_updated user project_id e e.status status
    ∷ (if status_eq status in_review then review_requested user project_id e ∷ [] else [])

-- The errors that the `catch` clause passes on.
rethrow_or : Caught → Exception → Exception
rethrow_or (app_error (bad_request m)) e = bad_request m
rethrow_or (app_error (forbidden m)) e = forbidden m
rethrow_or (app_error (endpoint_not_found id)) e = endpoint_not_found id
rethrow_or (app_error endpoint_status_concurrency) e = endpoint_status_concurrency
rethrow_or _ e = e

module _ (client : PrismaService) where
  unfoldable pub write_status :
      Database
      → String
      → String
      → Endpoint
      → EndpointStatus
      → UserDto
      → String
      → Try (Done Endpoint)
  write_status db project_id endpoint_id endpoint new_status user now = do
    result ← attempt (
        client.endpoint.update_many (any (λ u. u.id == user.id) db.users)
          (still_has endpoint_id endpoint.status) (with_status new_status user now) db.endpoints)
    if nat_eq result.1 0 then raise (app_error endpoint_status_concurrency) else fine tt
    updated ← or_not_found (client.endpoint.find_first (λ e. e.id == endpoint_id) result.0)
    fine (record {
      db = record db { endpoints = result.0 };
      events = status_events user project_id endpoint new_status;
      value = updated;
    })

  -- The answer where the endpoint has the status already: its creator and editor are fetched.
  unfoldable pub same_status : Database → Endpoint → Try (Done Endpoint)
  same_status db endpoint = do
    creator ← or_not_found (client.user.find_first (λ u. u.id == endpoint.creator_id) db.users)
    editor ← or_not_found (client.user.find_first (λ u. u.id == endpoint.updated_by_id) db.users)
    fine (record { db = db; events = []; value = endpoint })

  unfoldable pub update_status :
      Database
      → Database
      → String
      → String
      → EndpointStatus
      → UserDto
      → String
      → Result (Done Endpoint)
  unfolding write_status same_status rethrow_or
  update_status before db project_id endpoint_id new_status user now =
      try_catch
        (do
          endpoint ←
              or_not_found
                (client.endpoint.find_first (has_id project_id endpoint_id) before.endpoints)
          if status_eq endpoint.status new_status
              then same_status db endpoint
              else write_status db project_id endpoint_id endpoint new_status user now)
        (λ e. rethrow_or e (
          handle_prisma_error e
            (record no_mappings { missing = some (endpoint_not_found endpoint_id) })))

module _ (before db : Database) (project_id endpoint_id : String) (new_status : EndpointStatus)
    (user : UserDto) (now : String) (e : Endpoint)
    (found : find (has_id project_id endpoint_id) before.endpoints ≡ some e)
    (other : status_eq e.status new_status ≡ false)
    (clean : has_clash endpoint_clash db.endpoints ≡ false) where
  abbrev patched : List Endpoint
  patched =
      patch_all (still_has endpoint_id e.status) (with_status new_status user now) db.endpoints

  patched-clean : has_clash endpoint_clash patched ≡ false
  patched-clean =
      rw
        (has_clash-patch_all endpoint_clash (still_has endpoint_id e.status)
          (with_status new_status user now) (λ a b. refl) (λ a b. refl) db.endpoints)
        clean

  moved_in_memory :
      any (still_has endpoint_id e.status) db.endpoints ≡ false
      → update_status memory_client before db project_id endpoint_id new_status user now
        ≡ throw endpoint_status_concurrency
  unfolding update_status
  moved_in_memory moved =
      rw (found, update_status, other)
        (ground
          (arith, length-keep_none (still_has endpoint_id e.status) db.endpoints, patched-clean))

  written_in_memory :
      any (still_has endpoint_id e.status) db.endpoints ≡ true
      → any (λ u. u.id == user.id) db.users ≡ true
      → (row : Endpoint) × (row.id ≡ endpoint_id)
        × (update_status memory_client before db project_id endpoint_id new_status user now
            ≡ ok (record {
              db = record db { endpoints = patched };
              events = status_events user project_id e new_status;
              value = row;
            }))
  unfolding update_status
  written_in_memory still known =
      let there =
        any-patch_all (still_has endpoint_id e.status) (λ x. x.id == endpoint_id)
          (with_status new_status user now) db.endpoints (λ x h. ground arith) still in
      let (row, row_found, fits) = find-some (λ x. x.id == endpoint_id) patched there in
      (
        row,
        (eq_iff row.id endpoint_id).0 fits,
        rw (found, update_status, other)
            (ground (
              arith,
              length-keep_some (still_has endpoint_id e.status) db.endpoints,
              patched-clean,
              known,
              row_found,
            )),
      )

-- If the new status differs from the one that was read, and another request moved the endpoint to
-- another status (or deleted it) after the read, where the endpoints obey the unique constraints, the
-- update writes nothing and throws EndpointStatusConcurrencyException.
pub update_status_refused :
    (client : PrismaService)
    → IsPrisma client
    → (before db : Database) (project_id endpoint_id : String) (new_status : EndpointStatus)
      (user : UserDto) (now : String) (e : Endpoint)
    → find (has_id project_id endpoint_id) before.endpoints ≡ some e
    → status_eq e.status new_status ≡ false
    → has_clash endpoint_clash db.endpoints ≡ false
    → any (still_has endpoint_id e.status) db.endpoints ≡ false
    → update_status client before db project_id endpoint_id new_status user now
      ≡ throw endpoint_status_concurrency
update_status_refused client laws before db project_id endpoint_id new_status user now e found other
      clean moved =
    for_every_client
      (λ c.
        update_status c before db project_id endpoint_id new_status user now
        ≡ throw endpoint_status_concurrency)
      client laws
      (moved_in_memory before db project_id endpoint_id new_status user now e found other clean
        moved)

-- If the new status differs from the one that was read, the endpoint still has the latter, and the
-- user exists, where the endpoints obey the unique constraints, the update succeeds: it sets the status, the
-- editor and the time of the rows with that id and that status, leaves the rest of the database as
-- it was, and emits the audit record and the status event, with a review request exactly where the
-- new status is IN_REVIEW.
pub update_status_written :
    (client : PrismaService)
    → IsPrisma client
    → (before db : Database) (project_id endpoint_id : String) (new_status : EndpointStatus)
      (user : UserDto) (now : String) (e : Endpoint)
    → find (has_id project_id endpoint_id) before.endpoints ≡ some e
    → status_eq e.status new_status ≡ false
    → has_clash endpoint_clash db.endpoints ≡ false
    → any (still_has endpoint_id e.status) db.endpoints ≡ true
    → any (λ u. u.id == user.id) db.users ≡ true
    → (row : Endpoint) × (row.id ≡ endpoint_id)
      × (update_status client before db project_id endpoint_id new_status user now
          ≡ ok (record {
            db = record db {
              endpoints =
                  patch_all
                    (still_has endpoint_id e.status)
                    (with_status new_status user now)
                    db.endpoints;
            };
            events = status_events user project_id e new_status;
            value = row;
          }))
update_status_written client laws before db project_id endpoint_id new_status user now e found other
      clean still known =
    for_every_client
      (λ c.
        (row : Endpoint) × (row.id ≡ endpoint_id)
        × (update_status c before db project_id endpoint_id new_status user now
            ≡ ok (record {
              db = record db {
                endpoints =
                    patch_all (still_has endpoint_id e.status) (with_status new_status user now)
                      db.endpoints;
              };
              events = status_events user project_id e new_status;
              value = row;
            })))
      client laws
      (written_in_memory before db project_id endpoint_id new_status user now e found other clean
        still known)
