-- ===== src/Notifications/Service/Reading.antt =====
-- The marks of what a user has read.
use schematica_api.Common.{
  String, ℕ, zero, false, ◌≡◌, ◌≢◌, inl, inr, refl, arith, List, [], ◌∷◌, length, keep, ◌==◌,
  eq_iff, Bool-cases,
}
use schematica_api.Database.{Database, PrismaService, IsPrisma, memory_client, for_every_client}
use schematica_api.Entities.{UserNotificationStatus, notification_status_clash}
use schematica_api.Exceptions.{ok}
use schematica_api.Notifications.Service.{is_unread_of, read_now, mark_all_as_read}
use schematica_api.Prisma.{patch_all, has_clash}
use schematica_api.Prisma.Tables.{has_clash-patch_all}

-- The statuses of a user.
abbrev pub statuses_of : String → List UserNotificationStatus → List UserNotificationStatus
statuses_of user_id t = keep (λ s. s.user_id == user_id) t

module _ (user_id : String) (now : ℕ) where
  abbrev marked : List UserNotificationStatus → List UserNotificationStatus
  marked statuses = patch_all (is_unread_of user_id) (read_now now) statuses

  keep-marked : (t : List UserNotificationStatus) → keep (is_unread_of user_id) (marked t) ≡ []
  keep-marked [] = refl
  keep-marked (s ∷ t) = elim (Bool-cases (is_unread_of user_id s)) [
    | inl pending ↦ rw pending (ground (arith, keep-marked t))
    | inr other ↦ rw other (rw other (keep-marked t))
  ]

  marked_settled :
      (t : List UserNotificationStatus) → keep (is_unread_of user_id) t ≡ [] → marked t ≡ t
  marked_settled [] h = refl
  marked_settled (s ∷ t) h = elim (Bool-cases (is_unread_of user_id s)) [
    | inl pending ↦ let e = rw pending at h in cc
    | inr other ↦ rw other (ground (arith, marked_settled t (rw other at h)))
  ]

  statuses_of-marked :
      (other : String) (t : List UserNotificationStatus)
      → other ≢ user_id
      → statuses_of other (marked t) ≡ statuses_of other t
  statuses_of-marked other [] ne = refl
  statuses_of-marked other (s ∷ t) ne = elim (Bool-cases (is_unread_of user_id s)) [
    | inl pending ↦ rw pending (
        ground
          (arith, statuses_of-marked other t ne, eq_iff s.user_id other, eq_iff s.user_id user_id))
    | inr rest ↦ rw rest (ground (arith, statuses_of-marked other t ne))
  ]

abbrev marked_db : String → ℕ → Database → Database
marked_db user_id now db = record db {
  notification_statuses = marked user_id now db.notification_statuses;
}

-- Everything of the user is marked as read, the count is that of the unread ones, nothing else
-- changes, and there is nothing left to mark.
abbrev pub IsMarked : PrismaService → Database → String → ℕ → Database → Type 0
IsMarked client db user_id now db' =
    (mark_all_as_read client db user_id now
      ≡ ok (db', length (keep (is_unread_of user_id) db.notification_statuses)))
    × (keep (is_unread_of user_id) db'.notification_statuses ≡ [])
    × ((other : String)
        → other ≢ user_id
        → statuses_of other db'.notification_statuses ≡ statuses_of other db.notification_statuses)
    × ((later : ℕ) → mark_all_as_read client db' user_id later ≡ ok (db', zero))

module _ (db : Database) (user_id : String)
    (unique : has_clash notification_status_clash db.notification_statuses ≡ false) where
  IsMarked-in_memory : (now : ℕ) → IsMarked memory_client db user_id now (marked_db user_id now db)
  unfolding mark_all_as_read
  IsMarked-in_memory now =
      let same =
        has_clash-patch_all notification_status_clash (is_unread_of user_id) (read_now now)
          (λ a b. refl) (λ a b. refl) db.notification_statuses in
      (
        rw (mark_all_as_read, same, unique) refl,
        keep-marked user_id now db.notification_statuses,
        λ other ne. statuses_of-marked user_id now other db.notification_statuses ne,
        λ later.
            let none_left = keep-marked user_id now db.notification_statuses in
            let settled =
              marked_settled user_id later (marked user_id now db.notification_statuses)
                none_left in
            rw (mark_all_as_read, settled, same, unique, none_left) refl,
      )

-- Where the statuses obey their key, marking everything as read succeeds and answers the number of
-- the user's unread notifications; then the user has none, the statuses of all others are as
-- before, and to mark everything again changes nothing and answers 0.
pub mark_all_as_read-IsMarked :
    (client : PrismaService)
    → IsPrisma client
    → (db : Database) (user_id : String) (now : ℕ)
    → has_clash notification_status_clash db.notification_statuses ≡ false
    → (db' : Database) × IsMarked client db user_id now db'
mark_all_as_read-IsMarked client laws db user_id now unique =
    for_every_client (λ c. (db' : Database) × IsMarked c db user_id now db') client laws
      (marked_db user_id now db, IsMarked-in_memory db user_id unique now)
