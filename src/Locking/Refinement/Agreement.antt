-- ===== src/Locking/Refinement/Agreement.antt =====
-- Every request is answered as promised, and keeps the service in agreement with the promise.
use schematica_api.Common.{
  String, ℕ, ◌≤◌, ◌==◌, ◌≡◌, ◌∙◌, subst, ap, inl, inr, refl, eq_iff, arith, Option, none, some,
  List, [], ◌∷◌, ltb, if◌then◌else◌, Bool-cases, Option-cases, String-cases,
}
use schematica_api.Common.Map
use schematica_api.Common.Map.{IsMap}
use schematica_api.Exceptions.{Lock, resource_locked, Result, ok, throw}
use schematica_api.User.{UserDto}
use schematica_api.Locking.{
  LockingService, init, store_lock, drop_lock, acquire_lock, refresh_lock, new_lock, release_lock,
  get_lock_status, is_locked_by, cleanup_expired_locks,
}
use schematica_api.Locking.Calls.{
  releases, cleans, step, step-HasMap, step-lock_duration_ms, store_lock-HasMap, HasMap, granted,
  refreshed,
}
use schematica_api.Locking.Cleanup.{unexpired, get-cleanup_expired_locks}
use schematica_api.Locking.Refinement.{
  Request, acquiring, releasing, cleaning, querying, testing, status, owned, serve, answers,
  Holders, live, assign, is_held_by, without_owner, promise, promises, reading, IsLater, InOrder,
  Agrees,
}

-- A request depends on the lock only as far as it has not run out.
decide : Option Lock → String → UserDto → ℕ → LockingService → Result (LockingService × Lock)
decide none resource user now s =
    ok (store_lock resource (granted user now s) s, granted user now s)
decide (some l) resource user now s =
    if l.user_id == user.id
    then ok (store_lock resource (refreshed l now s) s, refreshed l now s)
    else throw (resource_locked l)

acquire_lock-live :
    (resource : String) (user : UserDto) (checked now : ℕ) (s : LockingService)
    → acquire_lock resource user checked now s
      ≡ decide (live checked (Map.get resource s.locks)) resource user now s
unfolding acquire_lock refresh_lock new_lock decide
acquire_lock-live resource user checked now s = elim (Option-cases (Map.get resource s.locks)) [
  | inl e ↦ rw (acquire_lock, e) refl
  | inr (l, e) ↦ elim (Bool-cases (ltb checked l.expires_at)) [
    | inl running ↦ rw (acquire_lock, e, running) refl
    | inr over ↦ rw (acquire_lock, e, over) refl
  ]
]

get_lock_status-live :
    (resource : String) (t : ℕ) (s : LockingService)
    → get_lock_status resource t s ≡ live t (Map.get resource s.locks)
unfolding get_lock_status
get_lock_status-live resource t s = elim (Option-cases (Map.get resource s.locks)) [
  | inl e ↦ rw (get_lock_status, e) refl
  | inr (l, e) ↦ rw (get_lock_status, e) refl
]

is_locked_by-live :
    (resource user_id : String) (t : ℕ) (s : LockingService)
    → is_locked_by resource user_id t s ≡ is_held_by user_id (live t (Map.get resource s.locks))
unfolding is_locked_by
is_locked_by-live resource user_id t s = elim (Option-cases (Map.get resource s.locks)) [
  | inl e ↦ rw (is_locked_by, e) refl
  | inr (l, e) ↦ rw (is_locked_by, e) (ground arith)
]

get-release_lock :
    (resource r user_id : String) (s : LockingService)
    → Map.get r (release_lock resource user_id s).locks ≡ (
        if resource == r
        then without_owner user_id (Map.get resource s.locks)
        else Map.get r s.locks)
unfolding release_lock drop_lock
get-release_lock resource r user_id s = elim (Option-cases (Map.get resource s.locks)) [
  | inl e ↦ rw (release_lock, e) (ground (arith, eq_iff resource r))
  | inr (l, e) ↦ elim (Bool-cases (l.user_id == user_id)) [
    | inl own ↦ rw (release_lock, e, own) (ground (arith, Map.get-delete resource r s.locks))
    | inr other ↦ rw (release_lock, e, other) (ground (arith, e, eq_iff resource r))
  ]
]

live-without_owner :
    (t : ℕ) (user_id : String) (h k : Option Lock)
    → live t h ≡ live t k
    → live t (without_owner user_id h) ≡ live t (without_owner user_id k)
live-without_owner t user_id none none e = refl
live-without_owner t user_id none (some k) e = ground arith
live-without_owner t user_id (some h) none e = ground arith
live-without_owner t user_id (some h) (some k) e = ground arith

live-unexpired : (t now : ℕ) (h : Option Lock) → now ≤ t → live t (unexpired now h) ≡ live t h
live-unexpired t now none late = refl
live-unexpired t now (some l) late = ground arith

module _ (since : ℕ) (a : Holders) (s : LockingService) (agrees : Agrees since a s) where
  store_lock-Agrees :
      (resource : String) (lock : Lock) (now : ℕ)
      → since ≤ now
      → Agrees now (assign resource (some lock) a) (store_lock resource lock s)
  unfolding store_lock
  store_lock-Agrees resource lock now late r t h = elim (String-cases resource r) [
    | inl (same, e) ↦ ground (arith, e, Map.get-set resource r lock s.locks)
    | inr (other, e) ↦
        ground (arith, e, Map.get-set resource r lock s.locks, agrees r t (omega arith))
  ]

  later-Agrees : (now : ℕ) → since ≤ now → Agrees now a s
  later-Agrees now late r t h = agrees r t (omega arith)

  release_lock-Agrees :
      (resource user_id : String)
      → Agrees since
          (assign resource (without_owner user_id (a resource)) a)
          (release_lock resource user_id s)
  release_lock-Agrees resource user_id r t h = elim (String-cases resource r) [
    | inl (same, e) ↦
        rw (get-release_lock resource r user_id s, e)
          (live-without_owner t user_id (Map.get resource s.locks) (a resource)
            (agrees resource t h))
    | inr (other, e) ↦ rw (get-release_lock resource r user_id s, e) (agrees r t h)
  ]

  cleanup-Agrees : (now : ℕ) → since ≤ now → HasMap s → Agrees now a (cleanup_expired_locks now s)
  cleanup-Agrees now late m r t h =
      rw (get-cleanup_expired_locks now r s m)
        (live-unexpired t now (Map.get r s.locks) h ∙ agrees r t (omega arith))

-- What holds between two requests.
abbrev IsAt : ℕ → ℕ → Holders → LockingService → Type 0
IsAt duration since a s = Agrees since a s × HasMap s × (s.lock_duration_ms ≡ duration)

-- A request is answered as promised, and then the service agrees with the promise again.
abbrev IsServed : ℕ → ℕ → Holders → LockingService → Request → Type 0
IsServed duration since a s q =
    ((serve s q).1 ≡ (promise duration a q).1)
    × IsAt duration (reading since q) (promise duration a q).0 (serve s q).0

store_lock-lock_duration_ms :
    (resource : String) (lock : Lock) (s : LockingService)
    → (store_lock resource lock s).lock_duration_ms ≡ s.lock_duration_ms
unfolding store_lock
store_lock-lock_duration_ms resource lock s = refl

store_lock-IsAt :
    (since : ℕ) (a : Holders) (s : LockingService) (resource : String) (lock : Lock) (now : ℕ)
    → Agrees since a s
    → HasMap s
    → since ≤ now
    → IsAt s.lock_duration_ms now (assign resource (some lock) a) (store_lock resource lock s)
store_lock-IsAt since a s resource lock now agrees m late = (
  store_lock-Agrees since a s agrees resource lock now late,
  store_lock-HasMap resource lock s m,
  store_lock-lock_duration_ms resource lock s,
)

module _ (since : ℕ) (a : Holders) (s : LockingService) (agrees : Agrees since a s)
    (m : HasMap s) where
  acquiring-IsServed :
      (resource : String) (user : UserDto) (checked now : ℕ)
      → since ≤ checked
      → checked ≤ now
      → IsServed s.lock_duration_ms since a s (acquiring resource user checked now)
  unfolding serve promise decide
  acquiring-IsServed resource user checked now early late =
      let as_seen = acquire_lock-live resource user checked now s in
      let seen = agrees resource checked early in
      let stored =
        λ (lock : Lock). store_lock-IsAt since a s resource lock now agrees m (omega arith) in
      elim (Option-cases (live checked (a resource))) [
        | inl e ↦ rw (serve, as_seen, seen, e, promise) (refl, stored (granted user now s))
        | inr (l, e) ↦ elim (Bool-cases (l.user_id == user.id)) [
          | inl own ↦
              rw (serve, as_seen, seen, e, promise, decide, own) (refl, stored (refreshed l now s))
          | inr other ↦
              rw (serve, as_seen, seen, e, promise, decide, other)
                (refl, (later-Agrees since a s agrees now (omega arith), m, refl))
        ]
      ]

  serve-IsServed : (q : Request) → IsLater since q → IsServed s.lock_duration_ms since a s q
  unfolding serve promise step
  serve-IsServed (acquiring resource user checked now) (early, late) =
      acquiring-IsServed resource user checked now early late
  serve-IsServed (releasing resource user_id) late = (
    refl,
    (
      release_lock-Agrees since a s agrees resource user_id,
      step-HasMap s (releases resource user_id) m,
      step-lock_duration_ms s (releases resource user_id),
    ),
  )
  serve-IsServed (cleaning now) late = (
    refl,
    (
      cleanup-Agrees since a s agrees now late m,
      step-HasMap s (cleans now) m,
      step-lock_duration_ms s (cleans now),
    ),
  )
  serve-IsServed (querying resource now) late = (
    ap status (get_lock_status-live resource now s ∙ agrees resource now late),
    (later-Agrees since a s agrees now late, m, refl),
  )
  serve-IsServed (testing resource user_id now) late = (
    ap (λ h. owned h)
        (is_locked_by-live resource user_id now s
          ∙ ap (is_held_by user_id) (agrees resource now late)),
    (later-Agrees since a s agrees now late, m, refl),
  )

run-IsServed :
    (qs : List Request) (duration since : ℕ) (a : Holders) (s : LockingService)
    → IsAt duration since a s
    → InOrder since qs
    → answers s qs ≡ promises duration a qs
unfolding answers promises
run-IsServed [] duration since a s now order = refl
run-IsServed (q ∷ qs) duration since a s (agrees, m, same) (late, order) =
    let (answer, after) =
      subst (λ d. IsServed d since a s q) same (serve-IsServed since a s agrees m q late) in
    let rest =
      run-IsServed qs duration (reading since q) (promise duration a q).0 (serve s q).0 after
        order in
    rw (answers, promises, answer, rest) refl

-- Whatever requests arrive, in an order in which the clock does not go back, a service that starts
-- without locks answers each as the promise does, which has one holder for each resource, forgets
-- no lock before its end and knows no cleanup.
pub answers-promises :
    (duration since : ℕ) (qs : List Request)
    → InOrder since qs
    → answers (init duration) qs ≡ promises duration (λ r. none) qs
unfolding init Map.get
answers-promises duration since qs order =
    run-IsServed qs duration since (λ r. none) (init duration) ((λ r t h. refl), tt, refl) order
