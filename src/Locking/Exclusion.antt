-- ===== src/Locking/Exclusion.antt =====
-- One editor at a time: who may take a lock, and how long it is safe from everybody else.
use schematica_api.Common.{
  String, ℕ, ◌+◌, ◌≤◌, ◌<◌, ◌≡◌, ◌≢◌, ◌↔◌, ◌⊎◌, inl, inr, ◌∙◌, refl, eq_iff, arith, true, false,
  some, List, [], ◌∷◌, All, Option-cases, String-cases,
}
use schematica_api.Common.Map
use schematica_api.Exceptions.{Lock, ok, throw, resource_locked}
use schematica_api.User.{UserDto}
use schematica_api.Locking.{LockingService, store_lock, drop_lock, acquire_lock, is_locked_by}
use schematica_api.Locking.Calls.{
  Call, acquires, releases, cleans, after, step, run, acquire_cases, release_cases, refreshed,
  HasMap, step-HasMap, store_lock-HasMap, step-lock_duration_ms,
}
use schematica_api.Locking.Cleanup.{get-cleanup_expired_locks}

-- Another user holds a lock that has not run out at `t`.
abbrev pub HeldByOther : String → UserDto → ℕ → LockingService → Lock → Type 0
HeldByOther resource user t s l =
    (Map.get resource s.locks ≡ some l) × (t < l.expires_at) × (l.user_id ≢ user.id)

-- A request is refused exactly when another user's lock on the resource has not run out, and the
-- exception carries that lock.
pub acquire_lock_refused_iff :
    (resource : String) (user : UserDto) (checked now : ℕ) (s : LockingService) (l : Lock)
    → (acquire_lock resource user checked now s ≡ throw (resource_locked l))
      ↔ HeldByOther resource user checked s l
unfolding acquire_lock
acquire_lock_refused_iff resource user checked now s l =
    elim (Option-cases (Map.get resource s.locks)) [
      | inl e ↦ rw (e, acquire_lock) (ground arith)
      | inr (x, e) ↦ rw (e, acquire_lock) (ground (arith, eq_iff x.user_id user.id))
    ]

pub HeldByOther-closed :
    (resource : String) (user : UserDto) (t : ℕ) (s : LockingService) (l : Lock)
    → HeldByOther resource user t s l
    → is_locked_by resource user.id t s ≡ false
unfolding is_locked_by
HeldByOther-closed resource user t s l (there, live, other) =
    rw (there, is_locked_by) (ground (arith, eq_iff l.user_id user.id))

-- The lock of `user` on `resource` runs at least until `until`.
abbrev pub Holds : String → String → ℕ → ℕ → LockingService → Type 0
Holds resource user_id until duration s =
    (l : Lock) × (Map.get resource s.locks ≡ some l)
    × (l.user_id ≡ user_id)
    × (until ≤ l.expires_at)
    × (s.lock_duration_ms ≡ duration)

-- A call whose readings of the clock lie from `since` on and before `until`, and which is not a
-- release of `resource` by `user_id` itself.
abbrev pub IsQuiet : String → String → ℕ → ℕ → Call → Type 0
IsQuiet resource user_id since until (acquires r user checked now) =
    (since ≤ now) × (checked < until)
IsQuiet resource user_id since until (releases r u) = (r ≢ resource) ⊎ (u ≢ user_id)
IsQuiet resource user_id since until (cleans now) = now < until

module _ (resource user_id : String) (since duration : ℕ) where
  store_other-Holds :
      (r : String) (lock : Lock) (s : LockingService)
      → r ≢ resource
      → Holds resource user_id (since + duration) duration s
      → Holds resource user_id (since + duration) duration (store_lock r lock s)
  unfolding store_lock
  store_other-Holds r lock s ne (l, e, own, late, d) =
      (l, ground (arith, Map.get-set r resource lock s.locks, eq_iff r resource), own, late, d)

  drop_other-Holds :
      (r : String) (s : LockingService)
      → r ≢ resource
      → Holds resource user_id (since + duration) duration s
      → Holds resource user_id (since + duration) duration (drop_lock r s)
  unfolding drop_lock
  drop_other-Holds r s ne (l, e, own, late, d) =
      (l, ground (arith, Map.get-delete r resource s.locks, eq_iff r resource), own, late, d)

  refresh-Holds :
      (l : Lock) (now : ℕ) (s : LockingService)
      → since ≤ now
      → l.user_id ≡ user_id
      → s.lock_duration_ms ≡ duration
      → Holds resource user_id
          (since + duration)
          duration
          (store_lock resource (refreshed l now s) s)
  unfolding store_lock
  refresh-Holds l now s late own d = (
    refreshed l now s,
    ground (
      arith,
      Map.get-set resource resource (refreshed l now s) s.locks,
      eq_iff resource resource,
    ),
    own,
    omega arith,
    d,
  )

  acquire-Holds :
      (r : String) (user : UserDto) (checked now : ℕ) (s : LockingService)
      → since ≤ now
      → checked < since + duration
      → Holds resource user_id (since + duration) duration s
      → Holds resource user_id
          (since + duration)
          duration
          (after s (acquire_lock r user checked now s))
  acquire-Holds r user checked now s late early (l, e, own, live, d) =
      elim (String-cases r resource) [
        | inr (ne, _) ↦
            acquire_cases (Holds resource user_id (since + duration) duration) r user checked now s
              (l, e, own, live, d) (λ x _ _ _. store_other-Holds r _ s ne (l, e, own, live, d))
              (λ _. store_other-Holds r _ s ne (l, e, own, live, d))
        | inl (same, _) ↦ rw same (
            acquire_cases (Holds resource user_id (since + duration) duration) resource user checked
              now s (l, e, own, live, d) (λ x ex ux _. refresh-Holds x now s late (cc) d)
              (λ free. absurd (ground arith)))
      ]

  step-Holds :
      (s : LockingService) (c : Call)
      → HasMap s
      → IsQuiet resource user_id since (since + duration) c
      → Holds resource user_id (since + duration) duration s
      → Holds resource user_id (since + duration) duration (step s c)
  unfolding step
  step-Holds s (acquires r user checked now) m (late, early) h =
      acquire-Holds r user checked now s late early h
  step-Holds s (releases r u) m q (l, e, own, live, d) =
      release_cases (Holds resource user_id (since + duration) duration) r u s (l, e, own, live, d)
        (λ x ex ux. drop_other-Holds r s (λ same. ground arith) (l, e, own, live, d))
  step-Holds s (cleans now) m early (l, e, own, live, d) = (
    l,
    ground (arith, get-cleanup_expired_locks now resource s m),
    own,
    live,
    step-lock_duration_ms s (cleans now) ∙ d,
  )

  pub run-Holds :
      (s : LockingService) (cs : List Call)
      → HasMap s
      → All (IsQuiet resource user_id since (since + duration)) cs
      → Holds resource user_id (since + duration) duration s
      → Holds resource user_id (since + duration) duration (run s cs)
  unfolding run
  run-Holds s [] m q h = h
  run-Holds s (c ∷ cs) m q h =
      run-Holds (step s c) cs (step-HasMap s c m) q.1 (step-Holds s c m q.0 h)

-- What a granted request stores and returns.
pub acquire_lock_granted :
    (resource : String) (user : UserDto) (checked now : ℕ) (s s' : LockingService) (lock : Lock)
    → acquire_lock resource user checked now s ≡ ok (s', lock)
    → (s' ≡ store_lock resource lock s)
      × (lock.user_id ≡ user.id)
      × (lock.expires_at ≡ now + s.lock_duration_ms)
unfolding acquire_lock
acquire_lock_granted resource user checked now s s' lock e =
    elim (Option-cases (Map.get resource s.locks)) [
      | inl f ↦ let h = rw (f, acquire_lock) at e in ground arith
      | inr (x, f) ↦ let h = rw (f, acquire_lock) at e in ground (arith, eq_iff x.user_id user.id)
    ]

Holds-locked :
    (resource user_id : String) (until duration t : ℕ) (s : LockingService)
    → Holds resource user_id until duration s
    → t < until
    → is_locked_by resource user_id t s ≡ true
unfolding is_locked_by
Holds-locked resource user_id until duration t s (l, e, own, late, d) early =
    rw (e, is_locked_by) (ground (arith, eq_iff l.user_id user_id))

Holds-refuses :
    (resource user_id : String) (until duration t later : ℕ) (s : LockingService) (other : UserDto)
    → Holds resource user_id until duration s
    → t < until
    → other.id ≢ user_id
    → (l : Lock) × (l.user_id ≡ user_id)
      × (acquire_lock resource other t later s ≡ throw (resource_locked l))
Holds-refuses resource user_id until duration t later s other (l, e, own, late, d) early ne = (
  l,
  own,
  (acquire_lock_refused_iff resource other t later s l).1 (e, omega arith, λ same. ground arith),
)

store-Holds :
    (resource : String) (until duration : ℕ) (lock : Lock) (s : LockingService)
    → until ≤ lock.expires_at
    → s.lock_duration_ms ≡ duration
    → Holds resource lock.user_id until duration (store_lock resource lock s)
unfolding store_lock
store-Holds resource until duration lock s late d = (
  lock,
  ground (arith, Map.get-set resource resource lock s.locks, eq_iff resource resource),
  refl,
  late,
  d,
)

-- Once `user` has acquired `resource` at `now`, then after any calls that read the clock from `now`
-- on and before the lock's end, and in which the user does not release the lock, the user owns the
-- lock at every time before its end, and the request of anybody else is refused with that lock.
pub acquire_lock_exclusive :
    (resource : String) (user : UserDto) (checked now : ℕ) (s s' : LockingService) (lock : Lock)
    (cs : List Call) (t : ℕ)
    → acquire_lock resource user checked now s ≡ ok (s', lock)
    → HasMap s
    → All (IsQuiet resource user.id now (now + s.lock_duration_ms)) cs
    → t < now + s.lock_duration_ms
    → (is_locked_by resource user.id t (run s' cs) ≡ true)
      × ((other : UserDto) (later : ℕ)
          → other.id ≢ user.id
          → (l : Lock) × (l.user_id ≡ user.id)
            × (acquire_lock resource other t later (run s' cs) ≡ throw (resource_locked l)))
acquire_lock_exclusive resource user checked now s s' lock cs t e m quiet early =
    let (stored, own, end) = acquire_lock_granted resource user checked now s s' lock e in
    let start =
      store-Holds resource (now + s.lock_duration_ms) s.lock_duration_ms lock s (omega arith)
        refl in
    let held =
      run-Holds resource user.id now s.lock_duration_ms s' cs
        (rw stored (store_lock-HasMap resource lock s m)) quiet (rw (stored, ← own) start) in
    (
      Holds-locked resource user.id _ _ t (run s' cs) held early,
      λ other later ne. Holds-refuses resource user.id _ _ t later (run s' cs) other held early ne,
    )
