-- ===== src/Locking/Gateway.antt =====
-- locking/locking.gateway.ts: the sockets that follow the locks. The rooms of socket.io are a
-- parameter, in whose memory `join` takes effect at once, before the next event; and so is the
-- verification of a token, none where it fails.
pub mod Messages
pub mod Followers
mod Tests
use schematica_api.Auth.{JwtPayload}
use schematica_api.Common.Map
use schematica_api.Common.{
  String, ℕ, ◌-◌, ◌≡◌, ◌≤◌, Bool, true, false, ◌&&◌, ◌==◌, nat_eq, Option, none, some, List, [],
  ◌∷◌, length, take, if◌then◌else◌,
}
use schematica_api.Database.{Database, PrismaService}
use schematica_api.Exceptions.{Lock}
use schematica_api.Locking.{LockingService, init, get_lock_status}
use schematica_api.Locking.Calls.{Call, step}
use schematica_api.Users.{has_user_id}

-- Which socket is in which room: the calls take the socket and then the room.
pub record Server (S : Type 0) : Type 0 where
  pub empty : S
  pub join : String → String → S → S
  pub leave : String → String → S → S
  -- a socket that disconnects leaves every room
  pub disconnect : String → S → S
  pub is_in : String → String → S → Bool

pub record IsServer {S : Type 0} (server : Server S) : Type 0 where
  pub in_empty : (socket room : String) → server.is_in socket room server.empty ≡ false
  pub in_join :
      (s r socket room : String) (rooms : S)
      → server.is_in socket room (server.join s r rooms)
        ≡ (if s == socket && r == room then true else server.is_in socket room rooms)
  pub in_leave :
      (s r socket room : String) (rooms : S)
      → server.is_in socket room (server.leave s r rooms)
        ≡ (if s == socket && r == room then false else server.is_in socket room rooms)
  pub in_disconnect :
      (s socket room : String) (rooms : S)
      → server.is_in socket room (server.disconnect s rooms)
        ≡ (if s == socket then false else server.is_in socket room rooms)

-- `lock_updated`, with a resource and its lock
abbrev pub Message : Type 0
Message = String × Option Lock

-- `received` lists the messages of a socket, the latest first.
pub record LockingGateway (S : Type 0) : Type 0 where
  pub service : LockingService
  pub rooms : S
  pub user_ids : List (String × String)
  pub received : String → List Message

abbrev pub room_of : String → String
room_of resource = Prim.Native.String.◌++◌ "resource:" resource

-- `client.emit('lock_updated', …)`
abbrev pub emit : String → Message → (String → List Message) → String → List Message
emit client message received socket =
    if client == socket then message ∷ received socket else received socket

module _ {S : Type 0} (server : Server S) where
  unfoldable pub start : ℕ → LockingGateway S
  start duration = record {
    service = init duration;
    rooms = server.empty;
    user_ids = [];
    received = λ socket. [];
  }

  abbrev pub disconnected : String → LockingGateway S → LockingGateway S
  disconnected client g = record g { rooms = server.disconnect client g.rooms }

  unfoldable pub handle_connection :
      PrismaService
      → (String → Option JwtPayload)
      → Database
      → String
      → Option String
      → LockingGateway S
      → LockingGateway S
  handle_connection prisma verify db client none g = disconnected client g
  handle_connection prisma verify db client (some token) g = elim (verify token) [
    | none ↦ disconnected client g
    | some payload ↦ elim (prisma.user.find_first (has_user_id payload.sub) db.users) [
      | none ↦ disconnected client g
      | some user ↦
          if nat_eq user.token_version payload.token_version
          then record g { user_ids = Map.set client user.id g.user_ids }
          else disconnected client g
    ]
  ]

  -- A resource that is no text is none.
  unfoldable pub handle_subscribe : String → Option String → ℕ → LockingGateway S → LockingGateway S
  handle_subscribe client none now g = g
  handle_subscribe client (some resource) now g = if resource == "" then g else record g {
    received = emit client (resource, get_lock_status resource now g.service) g.received;
    rooms = server.join client (room_of resource) g.rooms;
  }

  unfoldable pub handle_unsubscribe : String → Option String → LockingGateway S → LockingGateway S
  handle_unsubscribe client none g = g
  handle_unsubscribe client (some resource) g =
      if resource == ""
      then g
      else record g { rooms = server.leave client (room_of resource) g.rooms }

  unfoldable pub broadcast : Message → LockingGateway S → LockingGateway S
  broadcast message g = record g {
    received = λ socket.
        if server.is_in socket (room_of message.0) g.rooms
        then message ∷ g.received socket
        else g.received socket;
  }

  -- The messages are listed with the latest first.
  unfoldable pub broadcast_all : List Message → LockingGateway S → LockingGateway S
  broadcast_all [] g = g
  broadcast_all (message ∷ earlier) g = broadcast message (broadcast_all earlier g)

  -- A call of the service, with the broadcasts that it makes.
  unfoldable pub serve : Call → LockingGateway S → LockingGateway S
  serve c g =
      let after = step g.service c in
      broadcast_all (take (length after.sent - length g.service.sent) after.sent)
        (record g { service = after })

-- What happens to the gateway, with the state of the database when a socket connects.
pub data Event : Type 0 where
  connects : Database → String → Option String → Event
  disconnects : String → Event
  subscribes : String → Option String → ℕ → Event
  unsubscribes : String → Option String → Event
  serves : Call → Event

module _ {S : Type 0} (server : Server S) (prisma : PrismaService)
    (verify : String → Option JwtPayload) where
  unfoldable pub handle : LockingGateway S → Event → LockingGateway S
  handle g (connects db client token) = handle_connection server prisma verify db client token g
  handle g (disconnects client) = disconnected server client g
  handle g (subscribes client resource now) = handle_subscribe server client resource now g
  handle g (unsubscribes client resource) = handle_unsubscribe server client resource g
  handle g (serves c) = serve server c g

  unfoldable pub handle_all : LockingGateway S → List Event → LockingGateway S
  handle_all g [] = g
  handle_all g (e ∷ es) = handle_all (handle g e) es

-- The subscriptions read the clock at `t` or before.
abbrev pub IsReadBefore : ℕ → Event → Type 0
IsReadBefore t (connects db client token) = Unit
IsReadBefore t (disconnects client) = Unit
IsReadBefore t (subscribes client resource now) = now ≤ t
IsReadBefore t (unsubscribes client resource) = Unit
IsReadBefore t (serves c) = Unit
