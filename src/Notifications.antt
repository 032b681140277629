-- ===== src/Notifications.antt =====
-- notifications/notifications.gateway.ts: the sockets on which a user is connected. The verification
-- of a token is a parameter, none where it fails.
pub mod Sockets
pub mod Mentions
pub mod Service
mod Tests
use schematica_api.Auth.{JwtPayload}
use schematica_api.Common.Map
use schematica_api.Common.{
  String, ℕ, Bool, true, false, not, Option, none, some, List, [], ◌∷◌, ◌++◌, any, keep, ◌==◌,
  nat_eq, if◌then◌else◌,
}
use schematica_api.Database.{Database, PrismaService}
use schematica_api.Users.{has_user_id}

-- `userSockets : Map<string, Set<string>>`; a set is the list of its elements in insertion order.
abbrev pub UserSockets : Type 0
UserSockets = List (String × List String)

abbrev pub contains : String → List String → Bool
contains id ids = any (λ i. i == id) ids

-- `sockets.add(id)`
abbrev pub add : String → List String → List String
add id ids = if contains id ids then ids else ids ++ id ∷ []

-- `socketIds.delete(id)`
abbrev pub discard : String → List String → List String
discard id ids = keep (λ i. not (i == id)) ids

abbrev or_empty : Option (List String) → List String
or_empty none = []
or_empty (some ids) = ids

unfoldable pub connect : String → String → UserSockets → UserSockets
connect user_id socket_id sockets =
    Map.set user_id (add socket_id (or_empty (Map.get user_id sockets))) sockets

-- The user that a token stands for, if the token is valid and its version current.
unfoldable pub authenticate :
    PrismaService → (String → Option JwtPayload) → Database → Option String → Option String
authenticate client verify db none = none
authenticate client verify db (some token) = elim (verify token) [
  | none ↦ none
  | some payload ↦ elim (client.user.find_first (has_user_id payload.sub) db.users) [
    | none ↦ none
    | some user ↦ if nat_eq user.token_version payload.token_version then some user.id else none
  ]
]

-- With whether the socket stays connected.
unfoldable pub handle_connection :
    PrismaService
    → (String → Option JwtPayload)
    → Database
    → Option String
    → String
    → UserSockets
    → UserSockets × Bool
handle_connection client verify db token socket_id sockets =
    elim (authenticate client verify db token) [
      | none ↦ (sockets, false)
      | some user_id ↦ (connect user_id socket_id sockets, true)
    ]

abbrev pub is_empty : List String → Bool
is_empty [] = true
is_empty (id ∷ ids) = false

-- The loop ends at the first user who has the socket; an empty set is dropped with its key.
unfoldable pub handle_disconnect : String → UserSockets → UserSockets
handle_disconnect socket_id [] = []
handle_disconnect socket_id ((user_id, ids) ∷ rest) =
    let later = handle_disconnect socket_id rest in
    if contains socket_id ids
    then if is_empty (discard socket_id ids) then rest else (user_id, discard socket_id ids) ∷ rest
    else (user_id, ids) ∷ later

-- The sockets that receive a notification.
unfoldable pub send_notification_to_user : String → UserSockets → List String
send_notification_to_user user_id sockets = or_empty (Map.get user_id sockets)
