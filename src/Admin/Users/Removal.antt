-- ===== src/Admin/Users/Removal.antt =====
-- What a deletion of a user by an administrator leaves behind.
use schematica_api.Admin.Users.{
  deleted_user, is_gone, without_memberships, without_accesses, remove_try, remove,
}
use schematica_api.Auth.{JwtPayload, is_deleted, validate}
use schematica_api.Common.{
  String, true, false, not, ◌≡◌, ◌≢◌, ◌⊎◌, inl, inr, refl, eq_iff, arith, some, List, [], ◌∷◌, find,
  any, keep, All, ◌==◌, Bool-cases, Option-cases, String-cases,
}
use schematica_api.Database.{Database, PrismaService, IsPrisma, memory_client, for_every_client}
use schematica_api.Entities.{User, user_clash}
use schematica_api.Events.{Done, audit}
use schematica_api.Exceptions.{ok, throw, unauthorized}
use schematica_api.Prisma.{replace_first, remove_first}
use schematica_api.Prisma.Errors.{
  fine, raise, Caught, prisma_error, unique_constraint_failed, handle_prisma_error, unexpected,
}
use schematica_api.Prisma.Tables.{find-replace_first, find-fits}
use schematica_api.User.{UserDto}
use schematica_api.Users.{Bcrypt, has_user_id}

-- No row of the list is kept that the test drops.
All-keep :
    {A : Type 0} (id_of : A → String) (id : String) (xs : List A)
    → All (λ x. id_of x ≢ id) (keep (λ x. not (id_of x == id)) xs)
All-keep id_of id [] = tt
All-keep id_of id (x ∷ xs) = elim (String-cases (id_of x) id) [
  | inl (same, t) ↦ rw t (All-keep id_of id xs)
  | inr (other, t) ↦ rw t (other, All-keep id_of id xs)
]

-- What is left of a deleted user: a row that is marked as deleted, and no membership or access.
abbrev pub IsRemoved : String → Database → Type 0
IsRemoved user_id db =
    ((u : User) × (find (has_user_id user_id) db.users ≡ some u) × (is_deleted u ≡ true))
    × (All (λ m. m.user_id ≢ user_id) db.team_memberships)
    × (All (λ a. a.user_id ≢ user_id) (db.grants).user_accesses)

module _ (bcrypt : Bcrypt) (db : Database) (user_id : String) (actor : UserDto)
    (now stamp : String) where
  module _ (u : User) (found : find (has_user_id user_id) db.users ≡ some u) where
    abbrev outcome : Done (Unit {0})
    outcome = record {
      db = record (without_accesses user_id (without_memberships user_id db)) {
        users = replace_first (has_user_id user_id) (deleted_user now stamp u u) db.users;
      };
      events = audit actor "USER_DELETED" user_id ∷ [];
      value = tt;
    }

    remove_try-eq :
        is_gone u ≡ false
        → (remove_try memory_client bcrypt db user_id actor now stamp ≡ fine outcome)
          ⊎ ((e : Caught) × (remove_try memory_client bcrypt db user_id actor now stamp ≡ raise e))
    unfolding remove_try
    remove_try-eq live =
        elim (Bool-cases (
          any (user_clash (deleted_user now stamp u u))
            (remove_first (has_user_id user_id) db.users))) [
              | inl clash ↦
                  inr (prisma_error unique_constraint_failed, ground (arith, found, live, clash))
              | inr clear ↦ inl (ground (arith, found, live, clear))
            ]

    outcome-IsRemoved : IsRemoved user_id outcome.db
    outcome-IsRemoved = (
      (
        deleted_user now stamp u u,
        find-replace_first (has_user_id user_id) (deleted_user now stamp u u) u db.users
            (find-fits (has_user_id user_id) db.users u found) found,
        refl,
      ),
      All-keep (λ m. m.user_id) user_id db.team_memberships,
      All-keep (λ a. a.user_id) user_id (db.grants).user_accesses,
    )

  remove-IsRemoved_found :
      (d : Done (Unit {0})) (u : User)
      → find (has_user_id user_id) db.users ≡ some u
      → (user_id == actor.id) ≡ false
      → remove memory_client bcrypt db user_id actor now stamp ≡ ok d
      → IsRemoved user_id d.db
  unfolding remove remove_try
  remove-IsRemoved_found d u found t h = elim (Bool-cases (is_gone u)) [
    | inl gone ↦ ground (arith, found, t, gone)
    | inr live ↦ elim (remove_try-eq u found live) [
      | inl e ↦
          let same : ok (outcome u found) ≡ ok d = ground (arith, e, t, h) in
          let same_d : outcome u found ≡ d = cc in rw (← same_d) (outcome-IsRemoved u found)
      | inr (c, e) ↦ ground (arith, e, t, h)
    ]
  ]

  remove-IsRemoved_in_memory :
      (d : Done (Unit {0}))
      → remove memory_client bcrypt db user_id actor now stamp ≡ ok d
      → (user_id ≢ actor.id) × IsRemoved user_id d.db
  unfolding remove remove_try
  remove-IsRemoved_in_memory d h = elim (String-cases user_id actor.id) [
    | inl (same, t) ↦ ground (arith, t)
    | inr (other, t) ↦ elim (Option-cases (find (has_user_id user_id) db.users)) [
      | inl missing ↦ ground (arith, t, missing)
      | inr (u, found) ↦ (other, remove-IsRemoved_found d u found t h)
    ]
  ]

  deleted_in_memory :
      (u : User)
      → find (has_user_id user_id) db.users ≡ some u
      → is_gone u ≡ true
      → user_id ≢ actor.id
      → remove memory_client bcrypt db user_id actor now stamp ≡ throw unexpected
  unfolding remove remove_try handle_prisma_error
  deleted_in_memory u found gone other = ground (arith, found, gone, eq_iff user_id actor.id)

-- If the deletion of a user succeeds, the actor deleted another user, whose row is marked as deleted
-- and who is in no team and has no access to a project of their own.
pub remove-IsRemoved :
    (client : PrismaService)
    → IsPrisma client
    → (bcrypt : Bcrypt) (db : Database) (user_id : String) (actor : UserDto) (now stamp : String)
      (d : Done (Unit {0}))
    → remove client bcrypt db user_id actor now stamp ≡ ok d
    → (user_id ≢ actor.id) × IsRemoved user_id d.db
remove-IsRemoved client laws bcrypt db user_id actor now stamp d =
    for_every_client
      (λ c.
        remove c bcrypt db user_id actor now stamp ≡ ok d
        → (user_id ≢ actor.id) × IsRemoved user_id d.db)
      client laws (remove-IsRemoved_in_memory bcrypt db user_id actor now stamp d)

refused :
    (db : Database) (payload : JwtPayload)
    → IsRemoved payload.sub db
    → validate memory_client db payload
      ≡ throw (unauthorized "User not found or has been deactivated")
unfolding validate
refused db payload ((u, found, gone), left, closed) = ground (arith, found, gone)

-- Once the deletion of a user has succeeded, no token of that user is accepted, whatever else it says.
pub remove-validate :
    (client : PrismaService)
    → IsPrisma client
    → (bcrypt : Bcrypt) (db : Database) (actor : UserDto) (now stamp : String) (d : Done (Unit {0}))
      (payload : JwtPayload)
    → remove client bcrypt db payload.sub actor now stamp ≡ ok d
    → validate client d.db payload ≡ throw (unauthorized "User not found or has been deactivated")
remove-validate client laws bcrypt db actor now stamp d payload =
    for_every_client
      (λ c.
        remove c bcrypt db payload.sub actor now stamp ≡ ok d
        → validate c d.db payload ≡ throw (unauthorized "User not found or has been deactivated"))
      client laws
      (λ done.
        refused d.db payload
          (remove-IsRemoved_in_memory bcrypt db payload.sub actor now stamp d done).1)

-- The deletion of a user who is deleted already ends in the generic 500 error, not in
-- UserNotFoundException, although the code throws that one.
pub remove_deleted :
    (client : PrismaService)
    → IsPrisma client
    → (bcrypt : Bcrypt) (db : Database) (user_id : String) (actor : UserDto) (now stamp : String)
      (u : User)
    → find (has_user_id user_id) db.users ≡ some u
    → is_gone u ≡ true
    → user_id ≢ actor.id
    → remove client bcrypt db user_id actor now stamp ≡ throw unexpected
remove_deleted client laws bcrypt db user_id actor now stamp u found gone other =
    for_every_client (λ c. remove c bcrypt db user_id actor now stamp ≡ throw unexpected) client
      laws (deleted_in_memory bcrypt db user_id actor now stamp u found gone other)
