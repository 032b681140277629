-- ===== src/Notifications/Service.antt =====
-- notifications/notification.service.ts and notifications/notification.listener.ts: who is notified,
-- and which notifications a user has read. The id and the time of a new row are arguments, and so
-- are the sockets of the gateway.
pub mod Reading
pub mod Recipients
pub mod Reviewers
pub mod Listing
use schematica_api.Access.{is_one_of, owned_by, owned_by_team}
use schematica_api.Common.{
  String, ℕ, Bool, true, false, not, ◌&&◌, ◌||◌, Option, none, some, List, [], ◌∷◌, ◌++◌, map, keep,
  any, length, ◌==◌, nat_eq, if◌then◌else◌, template,
}
use schematica_api.Database.{Database, PrismaService}
use schematica_api.Entities.{
  User, Endpoint, Note, Notification, UserNotificationStatus, TeamMembership,
}
use schematica_api.Exceptions.{Exception, Result, ok, throw, not_found, internal_server_error}
use schematica_api.Notifications.{UserSockets, send_notification_to_user}
use schematica_api.Notifications.Mentions.{parse_mentions}
use schematica_api.Prisma.Errors.{
  Try, fine, raise, Caught, app_error, prisma_error, other_code, attempt, try_catch, ◌>>=◌, ◌>>◌,
}
use schematica_api.User.{UserDto}
use schematica_api.Users.{check}
use schematica_api.Users.Sanitized.{SanitizedUserDto, included}

pub record NotificationDto : Type 0 where
  pub notification_id : ℕ
  pub message : String
  pub link : String
  pub created_at : ℕ
  pub is_read : Bool
  pub read_at : Option ℕ
  pub actor : Option SanitizedUserDto

-- The database, and what is sent to which socket.
pub record Pushed : Type 0 where
  pub db : Database
  pub sent : List (String × NotificationDto)

-- `where: { notificationId_userId: … }`
abbrev pub is_status_of : ℕ → String → UserNotificationStatus → Bool
is_status_of notification_id user_id s =
    nat_eq s.notification_id notification_id && s.user_id == user_id

abbrev pub is_unread_of : String → UserNotificationStatus → Bool
is_unread_of user_id s = s.user_id == user_id && not s.is_read

abbrev pub read_now : ℕ → UserNotificationStatus → UserNotificationStatus
read_now now s = record s { is_read = true; read_at = some now }

abbrev pub unread : ℕ → String → UserNotificationStatus
unread notification_id user_id = record {
  notification_id = notification_id;
  user_id = user_id;
  is_read = false;
  read_at = none;
}

-- `{ teamMemberships: … }`: the teams of a user.
abbrev pub member_teams : Database → String → List String
member_teams db user_id =
    map (λ m. m.team_id) (keep (λ m. m.user_id == user_id) db.team_memberships)

abbrev pub link_to : String → String → String
link_to project_id endpoint_id =
    template ("/projects/" ∷ project_id ∷ "/endpoints/" ∷ endpoint_id ∷ [])

abbrev pub send_all :
    UserSockets → (String → NotificationDto) → List String → List (String × NotificationDto)
send_all sockets dto [] = []
send_all sockets dto (user_id ∷ ids) =
    map (λ socket. (socket, dto user_id)) (send_notification_to_user user_id sockets)
    ++ send_all sockets dto ids

-- The foreign keys of a notification and of its statuses: the user exists.
abbrev pub is_user : Database → String → Bool
is_user db user_id = any (λ u. u.id == user_id) db.users

abbrev pub is_actor : Database → Option String → Bool
is_actor db none = true
is_actor db (some actor_id) = is_user db actor_id

module _ (client : PrismaService) where
  -- `new NotificationDto(status)`, with its notification and the notification's actor
  unfoldable pub notification_dto :
      Database → UserNotificationStatus → Notification → NotificationDto
  notification_dto db status notification = record {
    notification_id = status.notification_id;
    message = notification.message;
    link = notification.link;
    created_at = notification.created_at;
    is_read = status.is_read;
    read_at = status.read_at;
    actor = included client db notification.actor_id;
  }

  -- `createMany`: the rows one after the other, all or none.
  unfoldable pub create_statuses :
      Database → ℕ → List String → List UserNotificationStatus → Try (List UserNotificationStatus)
  create_statuses db notification_id [] statuses = fine statuses
  create_statuses db notification_id (user_id ∷ ids) statuses =
      attempt (
        client.notification_status.create (is_user db user_id) (unread notification_id user_id)
          statuses)
      >>= create_statuses db notification_id ids

  unfoldable pub create_and_broadcast_notifications :
      Database → UserSockets → Notification → List String → Try Pushed
  unfolding create_statuses notification_dto
  create_and_broadcast_notifications db sockets notification recipient_ids = do
    notifications ← attempt (
        client.notification.create (is_actor db notification.actor_id) notification
          db.notifications)
    let existing =
        client.notification_status.find_many
          (λ s. nat_eq s.notification_id notification.id && is_one_of s.user_id recipient_ids)
          db.notification_statuses
    let new_ids = keep (λ id. not (is_one_of id (map (λ s. s.user_id) existing))) recipient_ids
    statuses ← create_statuses db notification.id new_ids db.notification_statuses
    fine (record {
      db = record db { notifications = notifications; notification_statuses = statuses };
      sent =
          send_all sockets (λ id. notification_dto db (unread notification.id id) notification)
            new_ids;
    })

  -- A failure is logged, and nothing else.
  abbrev or_nothing : Database → Try Pushed → Pushed
  or_nothing db (fine pushed) = pushed
  or_nothing db (raise e) = record { db = db; sent = [] }

  unfoldable pub notify :
      Database → UserSockets → String → String → UserDto → List User → ℕ → ℕ → Pushed
  unfolding create_and_broadcast_notifications
  notify db sockets message link actor [] new_id now = record { db = db; sent = [] }
  notify db sockets message link actor users new_id now = or_nothing db (
      create_and_broadcast_notifications db sockets
        (record {
          id = new_id;
          message = message;
          link = link;
          actor_id = some actor.id;
          created_at = now;
        })
        (map (λ u. u.id) users))

  unfoldable pub create_notifications_for_mentions :
      Database → UserSockets → UserDto → Note → String → ℕ → ℕ → Pushed
  unfolding notify
  create_notifications_for_mentions db sockets actor note project_id new_id now =
      notify db sockets
        (template ("User '" ∷ actor.username ∷ "' mentioned you in a note on an endpoint." ∷ []))
        (link_to project_id note.endpoint_id) actor
        (client.user.find_many (λ u. is_one_of u.username (parse_mentions note.content)) db.users)
        new_id now

  abbrev pub is_reviewer : Database → String → String → User → Bool
  is_reviewer db project_id actor_id u =
      (owned_by db.grants u.id project_id
        || owned_by_team db.grants (member_teams db u.id) project_id)
      && not (u.id == actor_id)

  unfoldable pub create_notification_for_endpoint_review :
      Database → UserSockets → UserDto → String → String → Endpoint → ℕ → ℕ → Pushed
  unfolding notify
  create_notification_for_endpoint_review db sockets actor project_id project_name endpoint new_id
        now =
      notify db sockets
        (template (
          "User '" ∷ actor.username ∷ "' requested a review for an endpoint in project '"
          ∷ project_name ∷ "'." ∷ []))
        (link_to project_id endpoint.id) actor
        (client.user.find_many (is_reviewer db project_id actor.id) db.users) new_id now

  abbrev required_notification : Database → UserNotificationStatus → Try NotificationDto
  required_notification db status =
      elim (client.notification.find_first (λ n. nat_eq n.id status.notification_id)
        db.notifications) [
          | none ↦ raise (prisma_error other_code)
          | some notification ↦ fine (notification_dto db status notification)
        ]

  -- A `NotFoundException` of the body is thrown again, any other error becomes one.
  abbrev not_found_of : Caught → Exception
  not_found_of (app_error (not_found message)) = not_found message
  not_found_of e = not_found "Could not update notification."

  unfoldable pub mark_as_read : Database → ℕ → String → ℕ → Result (Database × NotificationDto)
  unfolding notification_dto
  mark_as_read db notification_id user_id now =
      try_catch
        (do
          check
              (is_pending (
                client.notification_status.find_first (is_status_of notification_id user_id)
                  db.notification_statuses))
              (not_found "Notification not found or already marked as read.")
          written ← attempt (
              client.notification_status.update true (is_status_of notification_id user_id)
                (read_now now) db.notification_statuses)
          dto ← required_notification db written.1
          fine (record db { notification_statuses = written.0 }, dto))
        not_found_of
    where
      is_pending : Option UserNotificationStatus → Bool
      is_pending none = false
      is_pending (some status) = not status.is_read

  unfoldable pub mark_all_as_read : Database → String → ℕ → Result (Database × ℕ)
  mark_all_as_read db user_id now =
      try_catch
        (do
          written ← attempt (
              client.notification_status.update_many true (is_unread_of user_id) (read_now now)
                db.notification_statuses)
          fine (record db { notification_statuses = written.0 }, written.1))
        (λ e. internal_server_error "Could not update notifications.")

  -- `NotificationListener`
  unfoldable pub handle_note_changed :
      Database → UserSockets → UserDto → Note → String → ℕ → ℕ → Pushed
  unfolding create_notifications_for_mentions
  handle_note_changed = create_notifications_for_mentions

  unfoldable pub handle_endpoint_review_requested :
      Database → UserSockets → UserDto → String → String → Endpoint → ℕ → ℕ → Pushed
  unfolding create_notification_for_endpoint_review
  handle_endpoint_review_requested = create_notification_for_endpoint_review
