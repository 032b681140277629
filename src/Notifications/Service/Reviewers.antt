-- ===== src/Notifications/Service/Reviewers.antt =====
-- Who is told that an endpoint waits for a review.
use schematica_api.Access.{can_own_project, owned_by, owned_by_team}
use schematica_api.Common.{
  String, ℕ, All, true, false, not, ◌&&◌, ◌||◌, ◌≡◌, ◌≢◌, refl, List, [], ◌∷◌, map, any, any-keep,
  keep, ◌==◌, template, some,
}
use schematica_api.Database.{Database, PrismaService, IsPrisma, memory_client, for_every_client}
use schematica_api.Entities.{User, Endpoint, Notification, user_clash}
use schematica_api.Notifications.{UserSockets}
use schematica_api.Notifications.Service.{
  member_teams, is_user, link_to, notify, is_reviewer, create_notification_for_endpoint_review,
}
use schematica_api.Notifications.Service.Recipients.{
  IsNew, IsDistinct, notified, broadcast-notified, ids_of-IsDistinct, ids_of-IsUser, any-project,
}
use schematica_api.Prisma.{has_clash}
use schematica_api.User.{UserDto, role_eq, admin, team_ids}

abbrev pub reviewers : Database → String → String → List User
reviewers db project_id actor_id = keep (is_reviewer memory_client db project_id actor_id) db.users

abbrev pub review_notification : UserDto → String → String → Endpoint → ℕ → ℕ → Notification
review_notification actor project_id project_name endpoint new_id now = record {
  id = new_id;
  message = template (
      "User '" ∷ actor.username ∷ "' requested a review for an endpoint in project '" ∷ project_name
      ∷ "'." ∷ []);
  link = link_to project_id endpoint.id;
  actor_id = some actor.id;
  created_at = now;
}

-- Of a user as the server knows them after the authentication.
abbrev pub IsSession : Database → User → UserDto → Type 0
IsSession db u session =
    (session.id ≡ u.id)
    × (team_ids session ≡ member_teams db u.id)
    × (role_eq session.role admin ≡ false)

-- The review is told to those who own the project but the actor.
abbrev pub IsReviewTold :
    PrismaService → Database → UserSockets → UserDto → String → String → Endpoint → ℕ → ℕ → Type 0
IsReviewTold client db sockets actor project_id project_name endpoint new_id now =
    (reviewers db project_id actor.id ≡ []
      → create_notification_for_endpoint_review client db sockets actor project_id project_name
          endpoint new_id now
        ≡ record { db = db; sent = [] })
    × (reviewers db project_id actor.id ≢ []
        → create_notification_for_endpoint_review client db sockets actor project_id project_name
            endpoint new_id now
          ≡ notified client db sockets
              (review_notification actor project_id project_name endpoint new_id now)
              (map (λ u. u.id) (reviewers db project_id actor.id)))
    × ((u : User) (session : UserDto)
        → IsSession db u session
        → any (λ p. p.id == project_id) db.projects ≡ true
        → is_reviewer client db project_id actor.id u
          ≡ (can_own_project db.grants client.project session project_id && not (u.id == actor.id)))

notify-notified :
    (db : Database) (sockets : UserSockets) (message link : String) (actor : UserDto)
    (users : List User) (new_id now : ℕ)
    → users ≢ []
    → IsNew new_id db
    → IsDistinct (map (λ u. u.id) users)
    → is_user db actor.id ≡ true
    → All (λ id. is_user db id ≡ true) (map (λ u. u.id) users)
    → notify memory_client db sockets message link actor users new_id now
      ≡ notified memory_client db sockets
          (record {
            id = new_id;
            message = message;
            link = link;
            actor_id = some actor.id;
            created_at = now;
          })
          (map (λ u. u.id) users)
unfolding notify
notify-notified db sockets message link actor [] new_id now ne fresh distinct acting known =
    absurd (ne refl)
notify-notified db sockets message link actor (u ∷ users) new_id now ne fresh distinct acting
      known =
    rw
      (
        notify,
        broadcast-notified db sockets
            (record {
              id = new_id;
              message = message;
              link = link;
              actor_id = some actor.id;
              created_at = now;
            })
            (map (λ u. u.id) (u ∷ users)) fresh distinct acting known,
      )
      refl

module _ (db : Database) (sockets : UserSockets) (actor : UserDto)
    (project_id project_name : String) (endpoint : Endpoint) (new_id now : ℕ)
    (fresh : IsNew new_id db) (unique : has_clash user_clash db.users ≡ false)
    (acting : is_user db actor.id ≡ true) where
  nobody :
      reviewers db project_id actor.id ≡ []
      → create_notification_for_endpoint_review memory_client db sockets actor project_id
          project_name endpoint new_id now
        ≡ record { db = db; sent = [] }
  unfolding create_notification_for_endpoint_review notify
  nobody none = rw (create_notification_for_endpoint_review, none) refl

  somebody :
      reviewers db project_id actor.id ≢ []
      → create_notification_for_endpoint_review memory_client db sockets actor project_id
          project_name endpoint new_id now
        ≡ notified memory_client db sockets
            (review_notification actor project_id project_name endpoint new_id now)
            (map (λ u. u.id) (reviewers db project_id actor.id))
  unfolding create_notification_for_endpoint_review
  somebody some_one =
      notify-notified db sockets _ _ actor (reviewers db project_id actor.id) new_id now some_one
        fresh (ids_of-IsDistinct (is_reviewer memory_client db project_id actor.id) db.users unique)
        acting (ids_of-IsUser (is_reviewer memory_client db project_id actor.id) db.users)

  reviewer_owns :
      (u : User) (session : UserDto)
      → IsSession db u session
      → any (λ p. p.id == project_id) db.projects ≡ true
      → is_reviewer memory_client db project_id actor.id u ≡ (
          can_own_project db.grants memory_client.project session project_id
          && not (u.id == actor.id))
  unfolding can_own_project
  reviewer_owns u session (same, teams, common) exists =
      rw
        (
          can_own_project,
          common,
          any-keep
              (λ p.
                p.id == project_id
                && (owned_by db.grants session.id p.id
                    || owned_by_team db.grants (team_ids session) p.id))
              db.projects,
          any-project (λ p. p.id)
              (λ id.
                owned_by db.grants session.id id || owned_by_team db.grants (team_ids session) id)
              project_id db.projects,
          exists,
          same,
          teams,
        )
        refl

-- Where the ids of the users are distinct, the actor is one of them and the notification is new, a request for a review is
-- told to the owners of the project but the actor: if there are none nothing happens, and otherwise
-- the notification is stored, each of them has it unread, and it goes to all their sockets; and a
-- user who is no admin is one of them exactly if `canOwnProject` holds for them and they are not the
-- actor, where the project exists.
pub create_notification_for_endpoint_review-IsReviewTold :
    (client : PrismaService)
    → IsPrisma client
    → (db : Database) (sockets : UserSockets) (actor : UserDto) (project_id project_name : String)
      (endpoint : Endpoint) (new_id now : ℕ)
    → IsNew new_id db
    → has_clash user_clash db.users ≡ false
    → is_user db actor.id ≡ true
    → IsReviewTold client db sockets actor project_id project_name endpoint new_id now
create_notification_for_endpoint_review-IsReviewTold client laws db sockets actor project_id
      project_name endpoint new_id now fresh unique acting =
    for_every_client
      (λ c. IsReviewTold c db sockets actor project_id project_name endpoint new_id now) client laws
      (
        nobody db sockets actor project_id project_name endpoint new_id now fresh unique acting,
        somebody db sockets actor project_id project_name endpoint new_id now fresh unique acting,
        reviewer_owns db sockets actor project_id project_name endpoint new_id now fresh unique
            acting,
      )
