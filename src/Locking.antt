-- ===== src/Locking.antt =====
-- locking/locking.service.ts: the edit locks, one for each resource (an endpoint's id), held in a
-- `Map` of the process. A reading of `Date.now()` is an argument; `sent` lists the calls of
-- `broadcastLockUpdate`, the latest first.
pub mod Calls
pub mod Exclusion
pub mod Broadcasts
pub mod Cleanup
pub mod Refinement
pub mod Progress
pub mod Gateway
mod Tests
use schematica_api.Common.{
  String, ℕ, ◌+◌, ◌==◌, Bool, false, ◌&&◌, Option, none, some, List, [], ◌∷◌, ltb, leb,
  if◌then◌else◌,
}
use schematica_api.Common.Map
use schematica_api.Exceptions.{Lock, resource_locked, Result, ok, throw}
use schematica_api.User.{UserDto}

pub record LockingService : Type 0 where
  pub locks : List (String × Lock)
  pub sent : List (String × Option Lock)
  pub lock_duration_ms : ℕ

unfoldable pub init : ℕ → LockingService
init duration = record { locks = []; sent = []; lock_duration_ms = duration }

unfoldable pub broadcast_lock_update : String → Option Lock → LockingService → LockingService
broadcast_lock_update resource lock s = record s { sent = (resource, lock) ∷ s.sent }

-- `this.locks.set(resource, lock)` or the assignment to the stored object's `expiresAt`, and the
-- broadcast that follows.
unfoldable pub store_lock : String → Lock → LockingService → LockingService
unfolding broadcast_lock_update
store_lock resource lock s =
    broadcast_lock_update resource (some lock) (record s { locks = Map.set resource lock s.locks })

-- `this.locks.delete(resource)` and the broadcast that follows.
pub drop_lock : String → LockingService → LockingService
unfolding broadcast_lock_update
drop_lock resource s =
    broadcast_lock_update resource none (record s { locks = Map.delete resource s.locks })

-- The two branches of `acquireLock` that grant a lock; `now` is the reading that they store.
unfoldable pub refresh_lock : String → Lock → ℕ → LockingService → LockingService × Lock
unfolding store_lock
refresh_lock resource existing now s =
    let lock = record existing { expires_at = now + s.lock_duration_ms } in
    (store_lock resource lock s, lock)

unfoldable pub new_lock : String → UserDto → ℕ → LockingService → LockingService × Lock
unfolding store_lock
new_lock resource user now s =
    let lock : Lock = record {
      user_id = user.id;
      username = user.username;
      expires_at = now + s.lock_duration_ms;
    } in
    (store_lock resource lock s, lock)

-- `checked` is the reading of the test, `now` the later one.
unfoldable pub acquire_lock :
    String → UserDto → ℕ → ℕ → LockingService → Result (LockingService × Lock)
unfolding refresh_lock new_lock
acquire_lock resource user checked now s = elim (Map.get resource s.locks) [
  | none ↦ ok (new_lock resource user now s)
  | some existing ↦
      if ltb checked existing.expires_at
      then if existing.user_id == user.id
        then ok (refresh_lock resource existing now s)
        else throw (resource_locked existing)
      else ok (new_lock resource user now s)
]

pub release_lock : String → String → LockingService → LockingService
unfolding drop_lock
release_lock resource user_id s = elim (Map.get resource s.locks) [
  | none ↦ s
  | some existing ↦ if existing.user_id == user_id then drop_lock resource s else s
]

pub is_locked_by : String → String → ℕ → LockingService → Bool
is_locked_by resource user_id now s = elim (Map.get resource s.locks) [
  | none ↦ false
  | some lock ↦ lock.user_id == user_id && ltb now lock.expires_at
]

pub get_lock_status : String → ℕ → LockingService → Option Lock
get_lock_status resource now s = elim (Map.get resource s.locks) [
  | none ↦ none
  | some lock ↦ if ltb now lock.expires_at then some lock else none
]

-- The loop of `cleanupExpiredLocks` over the entries that the map held at its start.
cleanup_entries : ℕ → List (String × Lock) → LockingService → LockingService
unfolding drop_lock
cleanup_entries now [] s = s
cleanup_entries now ((resource, lock) ∷ entries) s =
    cleanup_entries now entries (if leb lock.expires_at now then drop_lock resource s else s)

pub cleanup_expired_locks : ℕ → LockingService → LockingService
unfolding cleanup_entries
cleanup_expired_locks now s = cleanup_entries now s.locks s
