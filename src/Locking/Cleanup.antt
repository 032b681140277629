-- ===== src/Locking/Cleanup.antt =====
-- The cleanup job removes the locks that have run out and no other, and nobody can tell.
use schematica_api.Common.{
  String, ℕ, ◌≤◌, ◌==◌, ◌≡◌, ◌∙◌, refl, eq_iff, arith, Option, none, some, List, [], ◌∷◌, leb,
  if◌then◌else◌,
}
use schematica_api.Common.Map
use schematica_api.Common.Map.{IsMap}
use schematica_api.Exceptions.{Lock}
use schematica_api.Locking.{
  LockingService, drop_lock, cleanup_entries, cleanup_expired_locks, get_lock_status, is_locked_by,
}

abbrev pub unexpired : ℕ → Option Lock → Option Lock
unexpired now none = none
unexpired now (some l) = if leb l.expires_at now then none else some l

-- `before` is what the entries hold for the resource, `held` what the service does.
abbrev cleaned : ℕ → Option Lock → Option Lock → Option Lock
cleaned now none held = held
cleaned now (some l) held = if leb l.expires_at now then none else held

get-drop_lock :
    (r resource : String) (s : LockingService)
    → Map.get resource (drop_lock r s).locks
      ≡ (if r == resource then none else Map.get resource s.locks)
unfolding drop_lock
get-drop_lock r resource s = Map.get-delete r resource s.locks

get-cleanup_entries :
    (now : ℕ) (resource : String) (entries : List (String × Lock)) (s : LockingService)
    → IsMap entries
    → Map.get resource (cleanup_entries now entries s).locks
      ≡ cleaned now (Map.get resource entries) (Map.get resource s.locks)
unfolding cleanup_entries Map.get
get-cleanup_entries now resource [] s h = refl
get-cleanup_entries now resource ((r, lock) ∷ entries) s h = ground (
  arith,
  get-cleanup_entries now resource entries (drop_lock r s) h.1,
  get-cleanup_entries now resource entries s h.1,
  get-drop_lock r resource s,
  eq_iff r resource,
)

-- On every resource the cleanup at `now` leaves the lock in place exactly when it expires after
-- `now`; the map has no key twice, as the JavaScript `Map` guarantees.
pub get-cleanup_expired_locks :
    (now : ℕ) (resource : String) (s : LockingService)
    → IsMap s.locks
    → Map.get resource (cleanup_expired_locks now s).locks
      ≡ unexpired now (Map.get resource s.locks)
unfolding cleanup_expired_locks
get-cleanup_expired_locks now resource s h =
    get-cleanup_entries now resource s.locks s h ∙ ground arith

-- No status query and no ownership test at a time from the cleanup on sees that it ran.
pub cleanup_unobservable :
    (now t : ℕ) (resource user_id : String) (s : LockingService)
    → IsMap s.locks
    → now ≤ t
    → (get_lock_status resource t (cleanup_expired_locks now s) ≡ get_lock_status resource t s)
      × (is_locked_by resource user_id t (cleanup_expired_locks now s)
          ≡ is_locked_by resource user_id t s)
unfolding get_lock_status is_locked_by
cleanup_unobservable now t resource user_id s m h =
    ground (arith, get-cleanup_expired_locks now resource s m)
