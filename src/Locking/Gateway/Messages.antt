-- ===== src/Locking/Gateway/Messages.antt =====
-- The messages of the gateway: those of one call of the service, and what they show of the locks.
use schematica_api.Common.{
  String, ℕ, ◌+◌, ◌-◌, ◌≤◌, ◌≡◌, ◌≢◌, ap, refl, arith, true, false, ◌==◌, Option, none, some, List,
  [], ◌∷◌, ◌++◌, length, take, if◌then◌else◌, Bool-cases, String-cases, Option-cases, inl, inr,
  append-cancel, eq_refl,
}
use schematica_api.Common.Map
use schematica_api.Exceptions.{Lock}
use schematica_api.Locking.{LockingService, store_lock, drop_lock, get_lock_status}
use schematica_api.Locking.Broadcasts.{last_sent, IsCoherent}
use schematica_api.Locking.Calls.{Call, step, step-keeps}
use schematica_api.Locking.Gateway.{
  Server, Message, LockingGateway, room_of, broadcast, broadcast_all,
}
use schematica_api.Locking.Refinement.{live}

-- The messages of one call.
abbrev Extends : LockingService → LockingService → Type 0
Extends s s' = (fresh : List Message) × (s'.sent ≡ fresh ++ s.sent)

pub step-Extends : (s : LockingService) (c : Call) → Extends s (step s c)
unfolding store_lock drop_lock
step-Extends s c =
    step-keeps (Extends s)
      (λ r lock t (fresh, e). ((r, some lock) ∷ fresh, ap (λ m. (r, some lock) ∷ m) e))
      (λ r t (fresh, e). ((r, none) ∷ fresh, ap (λ m. (r, none) ∷ m) e)) s c ([], refl)

length-append : {A : Type 0} (xs ys : List A) → length (xs ++ ys) ≡ length xs + length ys
length-append [] ys = omega arith
length-append (x ∷ xs) ys = rw (length-append xs ys) (omega arith)

take-append : {A : Type 0} (xs ys : List A) → take (length xs) (xs ++ ys) ≡ xs
take-append [] ys = refl
take-append (x ∷ xs) ys = ap (λ zs. x ∷ zs) (take-append xs ys)

pub fresh-append :
    {A : Type 0} (xs ys : List A) → take (length (xs ++ ys) - length ys) (xs ++ ys) ≡ xs
fresh-append xs ys =
    let n : length (xs ++ ys) - length ys ≡ length xs = rw (length-append xs ys) (omega arith) in
    rw n (take-append xs ys)

-- The lock of the first message on the resource, and `before` where there is none.
unfoldable pub latest : String → List Message → Option Lock → Option Lock
latest resource [] before = before
latest resource ((r, lock) ∷ sent) before =
    if r == resource then lock else latest resource sent before

pub last_sent-append :
    (resource : String) (fresh sent : List Message)
    → last_sent resource (fresh ++ sent) ≡ latest resource fresh (last_sent resource sent)
unfolding latest
last_sent-append resource [] sent = refl
last_sent-append resource ((r, lock) ∷ fresh) sent =
    ground (arith, last_sent-append resource fresh sent)

pub latest-live :
    (t : ℕ) (resource : String) (fresh : List Message) (known held : Option Lock)
    → live t known ≡ live t held
    → live t (latest resource fresh known) ≡ live t (latest resource fresh held)
unfolding latest
latest-live t resource [] known held e = e
latest-live t resource ((r, lock) ∷ fresh) known held e = elim (Bool-cases (r == resource)) [
  | inl here ↦ rw here refl
  | inr there ↦ rw there (latest-live t resource fresh known held e)
]

pub live-live : (now t : ℕ) (held : Option Lock) → now ≤ t → live t (live now held) ≡ live t held
live-live now t none early = refl
live-live now t (some l) early = ground arith

pub status-live :
    (resource : String) (now : ℕ) (s : LockingService)
    → IsCoherent s
    → get_lock_status resource now s ≡ live now (last_sent resource s.sent)
unfolding get_lock_status
status-live resource now s h = elim (Option-cases (Map.get resource s.locks)) [
  | inl e ↦ rw (h resource, get_lock_status, e) refl
  | inr (l, e) ↦ rw (h resource, get_lock_status, e) refl
]

room_of-injective : (r resource : String) → room_of r ≡ room_of resource → r ≡ resource
room_of-injective r resource e = append-cancel "resource:" r resource e

pub room_of-apart : (r resource : String) → r ≢ resource → (room_of r == room_of resource) ≡ false
room_of-apart r resource apart = elim (String-cases (room_of r) (room_of resource)) [
  | inl (same, t) ↦ elim (apart (room_of-injective r resource same)) [ ]
  | inr (other, t) ↦ t
]

module _ {S : Type 0} (server : Server S) where
  pub broadcast_all-rooms :
      (fresh : List Message) (g : LockingGateway S) → (broadcast_all server fresh g).rooms ≡ g.rooms
  unfolding broadcast_all broadcast
  broadcast_all-rooms [] g = refl
  broadcast_all-rooms (m ∷ fresh) g = broadcast_all-rooms fresh g

  pub broadcast_all-service :
      (fresh : List Message) (g : LockingGateway S)
      → (broadcast_all server fresh g).service ≡ g.service
  unfolding broadcast_all broadcast
  broadcast_all-service [] g = refl
  broadcast_all-service (m ∷ fresh) g = broadcast_all-service fresh g

  -- A socket in the room of a resource gets every message on it.
  pub received-broadcast_all :
      (socket resource : String) (fresh : List Message) (g : LockingGateway S)
      → server.is_in socket (room_of resource) g.rooms ≡ true
      → last_sent resource ((broadcast_all server fresh g).received socket)
        ≡ latest resource fresh (last_sent resource (g.received socket))
  unfolding broadcast_all broadcast latest
  received-broadcast_all socket resource [] g member = refl
  received-broadcast_all socket resource ((r, lock) ∷ fresh) g member =
      let later = received-broadcast_all socket resource fresh g member in
      let same = broadcast_all-rooms fresh g in
      elim (String-cases r resource) [
        | inl (here, t) ↦ rw (same, here, member, eq_refl resource) refl
        | inr (apart, t) ↦ elim (Bool-cases (server.is_in socket (room_of r) g.rooms)) [
          | inl hears ↦ rw (same, hears, t) later
          | inr deaf ↦ rw (same, deaf, t) later
        ]
      ]
