-- ===== src/Routes/Editing.antt =====
-- The edit lock at the route that saves an endpoint.
use schematica_api.ApiLinting.{Linter}
use schematica_api.Common.{
  String, ℕ, ◌+◌, ◌<◌, false, ◌≡◌, ◌≢◌, inl, inr, refl, some, List, All, ◌==◌, Bool-cases,
}
use schematica_api.Database.{Database, PrismaService}
use schematica_api.Endpoints.{UpdateEndpointDto}
use schematica_api.Exceptions.{Lock, Exception, ok, throw, error, forbidden}
use schematica_api.Guards.{lock_owner_guard}
use schematica_api.Locking.{LockingService, acquire_lock, is_locked_by}
use schematica_api.Locking.Calls.{Call, run, HasMap}
use schematica_api.Locking.Exclusion.{
  HeldByOther-closed, acquire_lock_refused_iff, IsQuiet, acquire_lock_exclusive,
}
use schematica_api.Routes.{owns_endpoint, put_endpoint}
use schematica_api.Exceptions.{Result-cases}
use schematica_api.User.{UserDto}

lock_owner_guard-locked :
    (endpoint_id : String) (user : UserDto) (t : ℕ) (locking : LockingService)
    → is_locked_by endpoint_id user.id t locking ≡ false
    → (e : Exception) × (lock_owner_guard (some endpoint_id) user t locking ≡ throw e)
unfolding lock_owner_guard
lock_owner_guard-locked endpoint_id user t locking closed = elim (Bool-cases (endpoint_id == "")) [
  | inl nameless ↦ (error "LockOwnerGuard expects an endpointId route parameter.", rw nameless refl)
  | inr named ↦ (
    forbidden "You must acquire a lock on this endpoint before you can save changes.",
    rw (named, closed) refl,
  )
]

put_endpoint-locked :
    (client : PrismaService) (spectral : Linter) (db : Database) (locking : LockingService) (t : ℕ)
    (user : UserDto) (project_id endpoint_id : String) (dto : UpdateEndpointDto) (now : String)
    → is_locked_by endpoint_id user.id t locking ≡ false
    → (e : Exception) × (put_endpoint client spectral db locking t user project_id endpoint_id dto
          now
        ≡ throw e)
unfolding put_endpoint
put_endpoint-locked client spectral db locking t user project_id endpoint_id dto now closed =
    elim (Result-cases (owns_endpoint client db user project_id endpoint_id)) [
      | inl (e, refused) ↦ (e, rw (put_endpoint, refused) refl)
      | inr (passed, owned) ↦
          let (e, refused) = lock_owner_guard-locked endpoint_id user t locking closed in
          (e, rw (put_endpoint, owned, refused) refl)
    ]

-- Once a user has acquired the lock of an endpoint, then after any calls of the locking service that
-- read the clock before its end, and in which the user does not release it, nobody else saves the
-- endpoint through its route before the end of the lock, whatever the state of the database.
pub put_endpoint_exclusive :
    (client : PrismaService) (spectral : Linter) (endpoint_id : String) (holder : UserDto)
    (checked since : ℕ) (s s' : LockingService) (lock : Lock) (cs : List Call) (t : ℕ)
    (db : Database) (other : UserDto) (project_id : String) (dto : UpdateEndpointDto) (now : String)
    → acquire_lock endpoint_id holder checked since s ≡ ok (s', lock)
    → HasMap s
    → All (IsQuiet endpoint_id holder.id since (since + s.lock_duration_ms)) cs
    → t < since + s.lock_duration_ms
    → other.id ≢ holder.id
    → (e : Exception) × (put_endpoint client spectral db
          (run s' cs)
          t
          other
          project_id
          endpoint_id
          dto
          now
        ≡ throw e)
put_endpoint_exclusive client spectral endpoint_id holder checked since s s' lock cs t db other
      project_id dto now acquired m quiet early apart =
    let (mine, theirs) =
      acquire_lock_exclusive endpoint_id holder checked since s s' lock cs t acquired m quiet
        early in
    let (l, own, refused) = theirs other t apart in
    put_endpoint-locked client spectral db (run s' cs) t other project_id endpoint_id dto now (
      HeldByOther-closed endpoint_id other t (run s' cs) l
        ((acquire_lock_refused_iff endpoint_id other t t (run s' cs) l).0 refused))
