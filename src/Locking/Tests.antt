-- ===== src/Locking/Tests.antt =====
-- Runs of the locking service, and the theorems at concrete inputs.
use schematica_api.Common.{
  String, ℕ, List, ◌≡◌, ◌≢◌, inr, refl, eq_iff, arith, Bool, true, none, some, [], ◌∷◌,
}
use schematica_api.Common.Map
use schematica_api.Exceptions.{Lock, ok, throw, resource_locked}
use schematica_api.User.{UserDto, member}
use schematica_api.Locking.{LockingService, init, acquire_lock, release_lock, is_locked_by}
use schematica_api.Locking.Calls.{acquires, releases, cleans, run}
use schematica_api.Locking.Refinement.{
  Request, acquiring, cleaning, querying, took, refused, nothing, status, answers, promise,
  promises,
}
use schematica_api.Locking.Refinement.Agreement.{answers-promises}
use schematica_api.Locking.Progress.{acquire_lock_available}
use schematica_api.Locking.Exclusion.{acquire_lock_exclusive}

abbrev alice : UserDto
alice = record { id = "u1"; username = "alice"; role = member; teams = none }

abbrev bob : UserDto
bob = record { id = "u2"; username = "bob"; role = member; teams = none }

abbrev alice_lock : Lock
alice_lock = record { user_id = "u1"; username = "alice"; expires_at = 130 }

abbrev held : LockingService
held = record {
  locks = ("e1", alice_lock) ∷ [];
  sent = ("e1", some alice_lock) ∷ [];
  lock_duration_ms = 30;
}

acquire_test : acquire_lock "e1" alice 100 100 (init 30) ≡ ok (held, alice_lock)
unfolding acquire_lock init Map.get Map.set
acquire_test = refl

refused_test : acquire_lock "e1" bob 129 129 held ≡ throw (resource_locked alice_lock)
unfolding acquire_lock Map.get
refused_test = refl

lapsed_test : is_locked_by "e1" "u1" 130 held ≡ Bool.false
unfolding is_locked_by Map.get
lapsed_test = refl

release_by_other_test : release_lock "e1" "u2" held ≡ held
unfolding release_lock Map.get
release_by_other_test = refl

get_held : Map.get "e1" held.locks ≡ some alice_lock
unfolding Map.get
get_held = refl

alice_ne_bob : ◌≢◌ {A = String} "u2" "u1"
alice_ne_bob = ground (arith, eq_iff "u2" "u1")

e1_ne_e2 : ◌≢◌ {A = String} "e2" "e1"
e1_ne_e2 = ground (arith, eq_iff "e2" "e1")

init_HasMap : Map.IsMap (init 30).locks
unfolding init
init_HasMap = tt

acquire_lock_exclusive_example :
    (is_locked_by "e1" "u1" 120
        (run held (acquires "e1" bob 105 105 ∷ releases "e1" "u2" ∷ cleans 110 ∷ []))
      ≡ true)
    × ((other : UserDto) (later : ℕ)
        → other.id ≢ "u1"
        → (l : Lock) × (l.user_id ≡ "u1")
          × (acquire_lock "e1" other 120 later
                (run held (acquires "e1" bob 105 105 ∷ releases "e1" "u2" ∷ cleans 110 ∷ []))
              ≡ throw (resource_locked l)))
unfolding init
acquire_lock_exclusive_example =
    acquire_lock_exclusive "e1" alice 100 100 (init 30) held alice_lock
      (acquires "e1" bob 105 105 ∷ releases "e1" "u2" ∷ cleans 110 ∷ []) 120 acquire_test
      init_HasMap ((omega arith, omega arith), (inr alice_ne_bob, (omega arith, tt))) (omega arith)

-- Alice takes the lock, Bob is refused; the cleanup runs after its end, and Bob takes it.
abbrev requests : List Request
requests =
    acquiring "e1" alice 100 100
    ∷ acquiring "e1" bob 129 129
    ∷ cleaning 131
    ∷ querying "e1" 131
    ∷ acquiring "e1" bob 140 141
    ∷ []

abbrev bob_lock : Lock
bob_lock = record { user_id = "u2"; username = "bob"; expires_at = 171 }

promises_test :
    promises 30 (λ r. none) requests
    ≡ took alice_lock ∷ refused alice_lock ∷ nothing ∷ status none ∷ took bob_lock ∷ []
unfolding promises promise
promises_test = refl

answers-promises_example : answers (init 30) requests ≡ promises 30 (λ r. none) requests
answers-promises_example = answers-promises 30 100 requests (ground arith)

acquire_lock_available_example :
    (s' : LockingService) × (lock : Lock) × (acquire_lock "e1" bob 130 131
        (run (init 30) (acquires "e1" alice 100 100 ∷ []))
      ≡ ok (s', lock))
    × (lock.user_id ≡ bob.id)
acquire_lock_available_example =
    acquire_lock_available 30 100 (acquires "e1" alice 100 100 ∷ []) "e1" bob 130 131
      (omega arith, tt) (omega arith)
