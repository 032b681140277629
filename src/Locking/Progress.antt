-- ===== src/Locking/Progress.antt =====
-- No lock is held for ever.
use schematica_api.Common.{
  String, ℕ, ◌+◌, ◌≤◌, ◌≡◌, inl, inr, refl, sym, subst, ◌∙◌, arith, some, false, List, [], ◌∷◌, All,
  ltb, Option-cases, String-cases,
}
use schematica_api.Common.Map
use schematica_api.Exceptions.{Lock, ok}
use schematica_api.User.{UserDto}
use schematica_api.Locking.{
  LockingService, init, store_lock, drop_lock, acquire_lock, new_lock, cleanup_expired_locks,
}
use schematica_api.Locking.Calls.{
  Call, acquires, releases, cleans, step, run, acquire_cases, release_cases, granted, HasMap,
  step-HasMap, step-lock_duration_ms,
}
use schematica_api.Locking.Cleanup.{get-cleanup_expired_locks}

-- The locks that the call stores are granted at a time up to `latest`.
abbrev pub IsUpTo : ℕ → Call → Type 0
IsUpTo latest (acquires resource user checked now) = now ≤ latest
IsUpTo latest (releases resource user_id) = Unit
IsUpTo latest (cleans now) = Unit

-- Every lock has run out by the end.
abbrev IsOverBy : ℕ → LockingService → Type 0
IsOverBy end s =
    (resource : String) (l : Lock) → Map.get resource s.locks ≡ some l → l.expires_at ≤ end

module _ (latest : ℕ) where
  store_lock-IsOverBy :
      (resource : String) (lock : Lock) (s : LockingService)
      → lock.expires_at ≤ latest + s.lock_duration_ms
      → IsOverBy (latest + s.lock_duration_ms) s
      → IsOverBy (latest + s.lock_duration_ms) (store_lock resource lock s)
  unfolding store_lock
  store_lock-IsOverBy resource lock s bounded h r l e = elim (String-cases resource r) [
    | inl (same, t) ↦
        let stored : some lock ≡ some l = rw (Map.get-set resource r lock s.locks, t) at e in
        ground arith
    | inr (other, t) ↦ h r l (rw (Map.get-set resource r lock s.locks, t) at e)
  ]

  drop_lock-IsOverBy :
      (resource : String) (s : LockingService)
      → IsOverBy (latest + s.lock_duration_ms) s
      → IsOverBy (latest + s.lock_duration_ms) (drop_lock resource s)
  unfolding drop_lock
  drop_lock-IsOverBy resource s h r l e = elim (String-cases resource r) [
    | inl (same, t) ↦ let none_left = rw (Map.get-delete resource r s.locks, t) at e in cc
    | inr (other, t) ↦ h r l (rw (Map.get-delete resource r s.locks, t) at e)
  ]

  cleanup-IsOverBy :
      (now : ℕ) (s : LockingService)
      → HasMap s
      → IsOverBy (latest + s.lock_duration_ms) s
      → IsOverBy (latest + s.lock_duration_ms) (cleanup_expired_locks now s)
  cleanup-IsOverBy now s m h r l e = elim (Option-cases (Map.get r s.locks)) [
    | inl gone ↦ let x = rw (get-cleanup_expired_locks now r s m, gone) at e in cc
    | inr (k, there) ↦
        let x = rw (get-cleanup_expired_locks now r s m, there) at e in
        let bounded = h r k there in ground arith
  ]

  step-IsOverBy :
      (s : LockingService) (c : Call)
      → HasMap s
      → IsUpTo latest c
      → IsOverBy (latest + s.lock_duration_ms) s
      → IsOverBy (latest + s.lock_duration_ms) (step s c)
  unfolding step
  step-IsOverBy s (acquires resource user checked now) m early h =
      acquire_cases (IsOverBy (latest + s.lock_duration_ms)) resource user checked now s h
        (λ x _ _ _. store_lock-IsOverBy resource _ s (omega arith) h)
        (λ _. store_lock-IsOverBy resource _ s (omega arith) h)
  step-IsOverBy s (releases resource user_id) m early h =
      release_cases (IsOverBy (latest + s.lock_duration_ms)) resource user_id s h
        (λ x _ _. drop_lock-IsOverBy resource s h)
  step-IsOverBy s (cleans now) m early h = cleanup-IsOverBy now s m h

  run-IsOverBy :
      (s : LockingService) (cs : List Call) (duration : ℕ)
      → s.lock_duration_ms ≡ duration
      → HasMap s
      → All (IsUpTo latest) cs
      → IsOverBy (latest + duration) s
      → IsOverBy (latest + duration) (run s cs)
  unfolding run
  run-IsOverBy s [] duration same m early h = h
  run-IsOverBy s (c ∷ cs) duration same m (first, rest) h =
      run-IsOverBy (step s c) cs duration (step-lock_duration_ms s c ∙ same) (step-HasMap s c m)
        rest
        (subst (λ d. IsOverBy (latest + d) (step s c)) same
          (step-IsOverBy s c m first (subst (λ d. IsOverBy (latest + d) s) (sym same) h)))

free_granted :
    (resource : String) (user : UserDto) (checked now : ℕ) (s : LockingService)
    → ((l : Lock) → Map.get resource s.locks ≡ some l → l.expires_at ≤ checked)
    → acquire_lock resource user checked now s
      ≡ ok (store_lock resource (granted user now s) s, granted user now s)
unfolding acquire_lock new_lock
free_granted resource user checked now s over = elim (Option-cases (Map.get resource s.locks)) [
  | inl gone ↦ rw (acquire_lock, gone) refl
  | inr (l, there) ↦
      let past : ltb checked l.expires_at ≡ false = let bounded = over l there in ground arith in
      rw (acquire_lock, there, past) refl
]

-- Whatever the history, once the duration has passed since the last request that could have been
-- granted, the request of any user for any resource is granted.
pub acquire_lock_available :
    (duration latest : ℕ) (cs : List Call) (resource : String) (user : UserDto) (checked now : ℕ)
    → All (IsUpTo latest) cs
    → latest + duration ≤ checked
    → (s' : LockingService) × (lock : Lock) × (acquire_lock resource user checked now
          (run (init duration) cs)
        ≡ ok (s', lock))
      × (lock.user_id ≡ user.id)
unfolding init Map.get
acquire_lock_available duration latest cs resource user checked now early late =
    let over =
      run-IsOverBy latest (init duration) cs duration refl tt early (λ r l e. absurd (ground arith))
        resource in
    let s = run (init duration) cs in
    (
      store_lock resource (granted user now s) s,
      granted user now s,
      free_granted resource user checked now s (λ l e. let bounded = over l e in omega arith),
      refl,
    )
