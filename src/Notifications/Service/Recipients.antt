-- ===== src/Notifications/Service/Recipients.antt =====
-- What a notification of several users leaves behind.
use schematica_api.Access.{is_one_of}
use schematica_api.Common.{
  String, ℕ, Bool, true, false, ◌&&◌, ◌≡◌, inl, inr, refl, sym, ap, ◌∙◌, arith, List, [], ◌∷◌, ◌++◌,
  map, any, keep, All, ◌==◌, eq_iff, nat_eq, Bool-cases, String-cases, if◌then◌else◌,
}
use schematica_api.Database.{Database, PrismaService, memory_client}
use schematica_api.Entities.{
  User, Notification, UserNotificationStatus, user_clash, notification_status_clash,
}
use schematica_api.Notifications.{UserSockets}
use schematica_api.Notifications.Service.{
  unread, Pushed, send_all, notification_dto, create_statuses, is_user, is_actor,
  create_and_broadcast_notifications,
}
use schematica_api.Prisma.{has_clash}
use schematica_api.Prisma.Errors.{fine}

pub IsDistinct : List String → Type 0
IsDistinct [] = Unit
IsDistinct (id ∷ ids) = (is_one_of id ids ≡ false) × IsDistinct ids

-- No status of the notification stands in the way of the user's.
abbrev IsOpen : ℕ → List UserNotificationStatus → String → Type 0
IsOpen n t id = any (notification_status_clash (unread n id)) t ≡ false

any-append_one :
    {A : Type 0} (p : A → Bool) (t : List A) (x : A)
    → any p t ≡ false
    → p x ≡ false
    → any p (t ++ x ∷ []) ≡ false
any-append_one p [] x h k = ground arith
any-append_one p (y ∷ t) x h k = ground (arith, any-append_one p t x)

IsOpen-append :
    (n : ℕ) (id : String) (ids : List String) (t : List UserNotificationStatus)
    → is_one_of id ids ≡ false
    → All (IsOpen n t) ids
    → All (IsOpen n (t ++ unread n id ∷ [])) ids
IsOpen-append n id [] t h all = tt
IsOpen-append n id (j ∷ ids) t h (first, rest) = (
  any-append_one (notification_status_clash (unread n j)) t (unread n id) first (ground arith),
  IsOpen-append n id ids t (ground arith) rest,
)

append_assoc :
    {A : Type 0} (xs : List A) (y : A) (ys : List A) → (xs ++ y ∷ []) ++ ys ≡ xs ++ y ∷ ys
append_assoc [] y ys = refl
append_assoc (x ∷ xs) y ys = ap (λ t. x ∷ t) (append_assoc xs y ys)

append_nil : {A : Type 0} (xs : List A) → xs ++ [] ≡ xs
append_nil [] = refl
append_nil (x ∷ xs) = ap (λ t. x ∷ t) (append_nil xs)

create_statuses-open :
    (db : Database) (n : ℕ) (ids : List String) (t : List UserNotificationStatus)
    → IsDistinct ids
    → All (λ id. is_user db id ≡ true) ids
    → All (IsOpen n t) ids
    → create_statuses memory_client db n ids t ≡ fine (t ++ map (unread n) ids)
unfolding create_statuses IsDistinct
create_statuses-open db n [] t distinct known all = ap fine (sym (append_nil t))
create_statuses-open db n (id ∷ ids) t (alone, distinct) (user, known) (first, rest) =
    rw (create_statuses, user, first)
      (create_statuses-open db n ids (t ++ unread n id ∷ []) distinct known
          (IsOpen-append n id ids t alone rest)
        ∙ ap fine (append_assoc t (unread n id) (map (unread n) ids)))

-- A new notification has no status yet.
abbrev pub IsNew : ℕ → Database → Type 0
IsNew n db =
    (any (λ x. nat_eq n x.id) db.notifications ≡ false)
    × (any (λ s. nat_eq s.notification_id n) db.notification_statuses ≡ false)

no_status :
    (n : ℕ) (ids : List String) (t : List UserNotificationStatus)
    → any (λ s. nat_eq s.notification_id n) t ≡ false
    → keep (λ s. nat_eq s.notification_id n && is_one_of s.user_id ids) t ≡ []
no_status n ids [] h = refl
no_status n ids (s ∷ t) h = ground (arith, no_status n ids t)

IsOpen-new :
    (n : ℕ) (id : String) (t : List UserNotificationStatus)
    → any (λ s. nat_eq s.notification_id n) t ≡ false
    → IsOpen n t id
IsOpen-new n id [] h = refl
IsOpen-new n id (s ∷ t) h = ground (arith, IsOpen-new n id t)

All-IsOpen :
    (n : ℕ) (ids : List String) (t : List UserNotificationStatus)
    → any (λ s. nat_eq s.notification_id n) t ≡ false
    → All (IsOpen n t) ids
All-IsOpen n [] t h = tt
All-IsOpen n (id ∷ ids) t h = (IsOpen-new n id t h, All-IsOpen n ids t h)

keep-true : {A : Type 0} (xs : List A) → keep (λ _. true) xs ≡ xs
keep-true [] = refl
keep-true (x ∷ xs) = ap (λ t. x ∷ t) (keep-true xs)

pub ids_of-IsDistinct :
    (p : User → Bool) (users : List User)
    → has_clash user_clash users ≡ false
    → IsDistinct (map (λ u. u.id) (keep p users))
unfolding IsDistinct
ids_of-IsDistinct p [] h = tt
ids_of-IsDistinct p (u ∷ users) h = elim (Bool-cases (p u)) [
  | inl fits ↦ rw fits (alone users (ground arith), ids_of-IsDistinct p users (ground arith))
  | inr other ↦ rw other (ids_of-IsDistinct p users (ground arith))
]
  where
    alone :
        (t : List User)
        → any (user_clash u) t ≡ false
        → is_one_of u.id (map (λ x. x.id) (keep p t)) ≡ false
    alone [] h = refl
    alone (x ∷ t) h = ground (arith, alone t, eq_iff u.id x.id, eq_iff x.id u.id)

-- Users that were read from the table exist.
is_user-row :
    (id : String) (u : User) (users : List User)
    → any (λ x. x.id == id) users ≡ true
    → any (λ x. x.id == id) (u ∷ users) ≡ true
is_user-row id u users h = ground (arith, h)

All-more :
    (u : User) (users : List User) (ids : List String)
    → All (λ id. any (λ x. x.id == id) users ≡ true) ids
    → All (λ id. any (λ x. x.id == id) (u ∷ users) ≡ true) ids
All-more u users [] h = tt
All-more u users (id ∷ ids) (here, rest) = (is_user-row id u users here, All-more u users ids rest)

pub ids_of-IsUser :
    (p : User → Bool) (users : List User)
    → All (λ id. any (λ x. x.id == id) users ≡ true) (map (λ u. u.id) (keep p users))
ids_of-IsUser p [] = tt
ids_of-IsUser p (u ∷ users) = elim (Bool-cases (p u)) [
  | inl fits ↦ rw fits (
    ground (arith, eq_iff u.id u.id),
    All-more u users (map (λ x. x.id) (keep p users)) (ids_of-IsUser p users),
  )
  | inr other ↦ rw other (All-more u users (map (λ x. x.id) (keep p users)) (ids_of-IsUser p users))
]

-- The notification is stored, each of the users has it unread, and it goes to all their sockets.
abbrev pub notified : PrismaService → Database → UserSockets → Notification → List String → Pushed
notified client db sockets n ids = record {
  db = record db {
    notifications = db.notifications ++ n ∷ [];
    notification_statuses = db.notification_statuses ++ map (unread n.id) ids;
  };
  sent = send_all sockets (λ id. notification_dto client db (unread n.id id) n) ids;
}

pub broadcast-notified :
    (db : Database) (sockets : UserSockets) (n : Notification) (ids : List String)
    → IsNew n.id db
    → IsDistinct ids
    → is_actor db n.actor_id ≡ true
    → All (λ id. is_user db id ≡ true) ids
    → create_and_broadcast_notifications memory_client db sockets n ids
      ≡ fine (notified memory_client db sockets n ids)
unfolding create_and_broadcast_notifications
broadcast-notified db sockets n ids (new_row, no_rows) distinct acting known =
    rw
      (
        create_and_broadcast_notifications,
        acting,
        new_row,
        no_status n.id ids db.notification_statuses no_rows,
        keep-true ids,
        create_statuses-open db n.id ids db.notification_statuses distinct known
            (All-IsOpen n.id ids db.notification_statuses no_rows),
      )
      refl

-- The test of the owners, for one project.
pub any-project :
    {A : Type 0} (id_of : A → String) (F : String → Bool) (project_id : String) (ps : List A)
    → any (λ p. id_of p == project_id && F (id_of p)) ps
      ≡ (if any (λ p. id_of p == project_id) ps then F project_id else false)
any-project id_of F project_id [] = refl
any-project id_of F project_id (p ∷ ps) = elim (String-cases (id_of p) project_id) [
  | inl (same, e) ↦ rw (e, same, any-project id_of F project_id ps) (ground arith)
  | inr (other, e) ↦ rw (e, any-project id_of F project_id ps) (ground arith)
]
