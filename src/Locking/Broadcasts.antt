-- ===== src/Locking/Broadcasts.antt =====
-- What the subscribers of a resource are told, against what the service holds.
use schematica_api.Common.{
  String, ℕ, ◌==◌, ◌≡◌, refl, arith, Option, none, List, [], ◌∷◌, if◌then◌else◌,
}
use schematica_api.Common.Map
use schematica_api.Exceptions.{Lock}
use schematica_api.Locking.{LockingService, init, store_lock, drop_lock}
use schematica_api.Locking.Calls.{Call, step, step-keeps}

-- The lock of the latest `lock_updated` message on a resource: none where it was null or never sent.
abbrev pub last_sent : String → List (String × Option Lock) → Option Lock
last_sent resource [] = none
last_sent resource ((r, lock) ∷ sent) = if r == resource then lock else last_sent resource sent

abbrev pub IsCoherent : LockingService → Type 0
IsCoherent s = (resource : String) → last_sent resource s.sent ≡ Map.get resource s.locks

store_lock-IsCoherent :
    (r : String) (lock : Lock) (s : LockingService)
    → IsCoherent s
    → IsCoherent (store_lock r lock s)
unfolding store_lock
store_lock-IsCoherent r lock s h resource =
    ground (arith, h resource, Map.get-set r resource lock s.locks)

drop_lock-IsCoherent : (r : String) (s : LockingService) → IsCoherent s → IsCoherent (drop_lock r s)
unfolding drop_lock
drop_lock-IsCoherent r s h resource = ground (arith, h resource, Map.get-delete r resource s.locks)

pub step-IsCoherent : (s : LockingService) (c : Call) → IsCoherent s → IsCoherent (step s c)
step-IsCoherent = step-keeps IsCoherent store_lock-IsCoherent drop_lock-IsCoherent

pub init-IsCoherent : (duration : ℕ) → IsCoherent (init duration)
unfolding init Map.get
init-IsCoherent duration resource = refl
