-- ===== src/Locking/Refinement.antt =====
-- What the locking service promises: each resource has at most one holder until a time. The promise
-- knows no map, no cleanup job and no lock that has run out.
pub mod Agreement
use schematica_api.Common.{
  String, ℕ, ◌+◌, ◌≤◌, ◌==◌, ◌≡◌, inl, inr, refl, eq_iff, arith, Bool, true, false, ◌&&◌, Option,
  none, some, List, [], ◌∷◌, ltb, if◌then◌else◌, Bool-cases, Option-cases, String-cases,
}
use schematica_api.Common.Map
use schematica_api.Common.Map.{IsMap}
use schematica_api.Exceptions.{Lock, resource_locked, Result, ok, throw}
use schematica_api.User.{UserDto}
use schematica_api.Locking.{
  LockingService, init, store_lock, drop_lock, acquire_lock, release_lock, get_lock_status,
  is_locked_by, cleanup_expired_locks,
}
use schematica_api.Locking.Calls.{
  acquires, releases, cleans, step, step-HasMap, step-lock_duration_ms, HasMap, granted, refreshed,
}
use schematica_api.Locking.Cleanup.{unexpired, get-cleanup_expired_locks}

pub data Request : Type 0 where
  acquiring : String → UserDto → ℕ → ℕ → Request
  releasing : String → String → Request
  cleaning : ℕ → Request
  -- the queries of the status and of the owner
  querying : String → ℕ → Request
  testing : String → String → ℕ → Request

pub data Answer : Type 0 where
  took : Lock → Answer
  refused : Lock → Answer
  nothing : Answer
  status : Option Lock → Answer
  owned : Bool → Answer

abbrev answer_of : Result (LockingService × Lock) → LockingService → LockingService × Answer
answer_of (ok (s', lock)) s = (s', took lock)
answer_of (throw (resource_locked lock)) s = (s, refused lock)
answer_of (throw e) s = (s, nothing)

-- One request to the service.
unfoldable pub serve : LockingService → Request → LockingService × Answer
serve s (acquiring resource user checked now) =
    answer_of (acquire_lock resource user checked now s) s
serve s (releasing resource user_id) = (release_lock resource user_id s, nothing)
serve s (cleaning now) = (cleanup_expired_locks now s, nothing)
serve s (querying resource now) = (s, status (get_lock_status resource now s))
serve s (testing resource user_id now) = (s, owned (is_locked_by resource user_id now s))

unfoldable pub answers : LockingService → List Request → List Answer
answers s [] = []
answers s (q ∷ qs) = (serve s q).1 ∷ answers (serve s q).0 qs

-- The promise: who holds which resource.
abbrev pub Holders : Type 0
Holders = String → Option Lock

abbrev pub live : ℕ → Option Lock → Option Lock
live t none = none
live t (some l) = if ltb t l.expires_at then some l else none

abbrev pub assign : String → Option Lock → Holders → Holders
assign resource holder a r = if resource == r then holder else a r

abbrev pub is_held_by : String → Option Lock → Bool
is_held_by user_id none = false
is_held_by user_id (some l) = l.user_id == user_id

abbrev pub without_owner : String → Option Lock → Option Lock
without_owner user_id none = none
without_owner user_id (some l) = if l.user_id == user_id then none else some l

module _ (duration : ℕ) where
  abbrev pub lock_until : String → String → ℕ → Lock
  lock_until user_id username now = record {
    user_id = user_id;
    username = username;
    expires_at = now + duration;
  }

  -- A free resource, or one that the user holds already, is held for the duration from `now` on.
  unfoldable pub promise : Holders → Request → Holders × Answer
  promise a (acquiring resource user checked now) = elim (live checked (a resource)) [
    | none ↦ (
      assign resource (some (lock_until user.id user.username now)) a,
      took (lock_until user.id user.username now),
    )
    | some l ↦
        if l.user_id == user.id
        then (
          assign resource (some (lock_until l.user_id l.username now)) a,
          took (lock_until l.user_id l.username now),
        )
        else (a, refused l)
  ]
  promise a (releasing resource user_id) =
      (assign resource (without_owner user_id (a resource)) a, nothing)
  promise a (cleaning now) = (a, nothing)
  promise a (querying resource now) = (a, status (live now (a resource)))
  promise a (testing resource user_id now) = (a, owned (is_held_by user_id (live now (a resource))))

  unfoldable pub promises : Holders → List Request → List Answer
  promises a [] = []
  promises a (q ∷ qs) = (promise a q).1 ∷ promises (promise a q).0 qs

-- The readings of the clock never go back.
abbrev pub reading : ℕ → Request → ℕ
reading since (acquiring resource user checked now) = now
reading since (releasing resource user_id) = since
reading since (cleaning now) = now
reading since (querying resource now) = now
reading since (testing resource user_id now) = now

abbrev pub IsLater : ℕ → Request → Type 0
IsLater since (acquiring resource user checked now) = (since ≤ checked) × (checked ≤ now)
IsLater since (releasing resource user_id) = Unit
IsLater since (cleaning now) = since ≤ now
IsLater since (querying resource now) = since ≤ now
IsLater since (testing resource user_id now) = since ≤ now

abbrev pub InOrder : ℕ → List Request → Type 0
InOrder since [] = Unit
InOrder since (q ∷ qs) = IsLater since q × InOrder (reading since q) qs

-- From `since` on, the service and the promise show the same locks.
abbrev pub Agrees : ℕ → Holders → LockingService → Type 0
Agrees since a s = (r : String) (t : ℕ) → since ≤ t → live t (Map.get r s.locks) ≡ live t (a r)
