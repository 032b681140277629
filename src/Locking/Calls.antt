-- ===== src/Locking/Calls.antt =====
-- Histories of calls of the locking service: requests of users, and the cleanup job.
use schematica_api.Common.{
  String, ℕ, ◌+◌, ◌≤◌, ◌<◌, ◌≡◌, ◌⊎◌, inl, inr, arith, refl, List, [], ◌∷◌, none, some, ltb, leb,
  ltb→lt, Bool-cases, Option-cases, String-cases,
}
use schematica_api.Common.Map
use schematica_api.Common.Map.{IsMap}
use schematica_api.Exceptions.{Lock, Result, ok, throw}
use schematica_api.User.{UserDto}
use schematica_api.Locking.{
  LockingService, store_lock, drop_lock, acquire_lock, release_lock, cleanup_entries,
  cleanup_expired_locks,
}

pub data Call : Type 0 where
  -- the resource, the user, and the two readings of the clock
  acquires : String → UserDto → ℕ → ℕ → Call
  releases : String → String → Call
  cleans : ℕ → Call

-- A request that is refused leaves the service as it was.
abbrev pub after : LockingService → Result (LockingService × Lock) → LockingService
after s (ok (s', lock)) = s'
after s (throw e) = s

unfoldable pub step : LockingService → Call → LockingService
step s (acquires resource user checked now) = after s (acquire_lock resource user checked now s)
step s (releases resource user_id) = release_lock resource user_id s
step s (cleans now) = cleanup_expired_locks now s

unfoldable pub run : LockingService → List Call → LockingService
run s [] = s
run s (c ∷ cs) = run (step s c) cs

abbrev pub refreshed : Lock → ℕ → LockingService → Lock
refreshed existing now s = record existing { expires_at = now + s.lock_duration_ms }

abbrev pub granted : UserDto → ℕ → LockingService → Lock
granted user now s = record {
  user_id = user.id;
  username = user.username;
  expires_at = now + s.lock_duration_ms;
}

-- No lock on the resource, or one that has run out.
abbrev pub IsFree : String → ℕ → LockingService → Type 0
IsFree resource t s =
    (Map.get resource s.locks ≡ none)
    ⊎ ((l : Lock) × (Map.get resource s.locks ≡ some l) × (l.expires_at ≤ t))

-- The branches of a request and of a release, for a property of the resulting state.
pub acquire_cases {ℓ} :
    (P : LockingService → Type ℓ) (resource : String) (user : UserDto) (checked now : ℕ)
    (s : LockingService)
    → P s
    → ((l : Lock)
        → Map.get resource s.locks ≡ some l
        → l.user_id ≡ user.id
        → checked < l.expires_at
        → P (store_lock resource (refreshed l now s) s))
    → (IsFree resource checked s → P (store_lock resource (granted user now s) s))
    → P (after s (acquire_lock resource user checked now s))
unfolding acquire_lock
acquire_cases P resource user checked now s h same free =
    elim (Option-cases (Map.get resource s.locks)) [
      | inl e ↦ rw (e, acquire_lock) (free (inl e))
      | inr (l, e) ↦ elim (Bool-cases (ltb checked l.expires_at)) [
        | inr past ↦ rw (e, acquire_lock, past) (free (inr (l, e, ground arith)))
        | inl live ↦ elim (String-cases l.user_id user.id) [
          | inl (own, t) ↦
              rw (e, acquire_lock, live, t) (same l e own (ltb→lt checked l.expires_at live))
          | inr (other, t) ↦ rw (e, acquire_lock, live, t) h
        ]
      ]
    ]

pub release_cases {ℓ} :
    (P : LockingService → Type ℓ) (resource user_id : String) (s : LockingService)
    → P s
    → ((l : Lock)
        → Map.get resource s.locks ≡ some l
        → l.user_id ≡ user_id
        → P (drop_lock resource s))
    → P (release_lock resource user_id s)
unfolding release_lock
release_cases P resource user_id s h owned = elim (Option-cases (Map.get resource s.locks)) [
  | inl e ↦ rw (e, release_lock) h
  | inr (l, e) ↦ elim (String-cases l.user_id user_id) [
    | inl (own, t) ↦ rw (e, release_lock, t) (owned l e own)
    | inr (other, t) ↦ rw (e, release_lock, t) h
  ]
]

-- A property that storing and removing a lock keep is kept by every call.
module _ {ℓ} (P : LockingService → Type ℓ)
    (stored : (resource : String) (lock : Lock) (s : LockingService)
      → P s
      → P (store_lock resource lock s))
    (removed : (resource : String) (s : LockingService) → P s → P (drop_lock resource s)) where
  cleanup_entries-keeps :
      (now : ℕ) (entries : List (String × Lock)) (s : LockingService)
      → P s
      → P (cleanup_entries now entries s)
  unfolding cleanup_entries
  cleanup_entries-keeps now [] s h = h
  cleanup_entries-keeps now ((resource, lock) ∷ entries) s h =
      elim (Bool-cases (leb lock.expires_at now)) [
        | inl past ↦ rw past (cleanup_entries-keeps now entries _ (removed resource s h))
        | inr live ↦ rw live (cleanup_entries-keeps now entries s h)
      ]

  pub step-keeps : (s : LockingService) (c : Call) → P s → P (step s c)
  unfolding step cleanup_expired_locks
  step-keeps s (acquires resource user checked now) h =
      acquire_cases P resource user checked now s h (λ existing _ _ _. stored resource _ s h)
        (λ _. stored resource _ s h)
  step-keeps s (releases resource user_id) h =
      release_cases P resource user_id s h (λ existing _ _. removed resource s h)
  step-keeps s (cleans now) h = cleanup_entries-keeps now s.locks s h

  pub run-keeps : (s : LockingService) (cs : List Call) → P s → P (run s cs)
  unfolding run
  run-keeps s [] h = h
  run-keeps s (c ∷ cs) h = run-keeps (step s c) cs (step-keeps s c h)

-- The stored keys stay distinct.
abbrev pub HasMap : LockingService → Type 0
HasMap s = IsMap s.locks

pub store_lock-HasMap :
    (r : String) (lock : Lock) (s : LockingService) → HasMap s → HasMap (store_lock r lock s)
unfolding store_lock
store_lock-HasMap r lock s h = Map.set-IsMap r lock s.locks h

drop_lock-HasMap : (r : String) (s : LockingService) → HasMap s → HasMap (drop_lock r s)
unfolding drop_lock
drop_lock-HasMap r s h = Map.delete-IsMap r s.locks h

pub step-HasMap : (s : LockingService) (c : Call) → HasMap s → HasMap (step s c)
step-HasMap = step-keeps HasMap store_lock-HasMap drop_lock-HasMap

pub run-HasMap : (s : LockingService) (cs : List Call) → HasMap s → HasMap (run s cs)
run-HasMap = run-keeps HasMap store_lock-HasMap drop_lock-HasMap

-- The duration of a lock never changes.
pub step-lock_duration_ms :
    (s : LockingService) (c : Call) → (step s c).lock_duration_ms ≡ s.lock_duration_ms
unfolding store_lock drop_lock
step-lock_duration_ms s c =
    step-keeps (λ t. t.lock_duration_ms ≡ s.lock_duration_ms) (λ r lock t h. h) (λ r t h. h) s c
      refl
