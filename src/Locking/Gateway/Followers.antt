-- ===== src/Locking/Gateway/Followers.antt =====
-- A socket that follows a resource knows its lock.
use schematica_api.Auth.{JwtPayload}
use schematica_api.Common.{
  String, ℕ, ◌-◌, ◌≤◌, ◌≡◌, ◌∙◌, sym, subst, arith, true, ◌==◌, Option, none, some, List, [], ◌∷◌,
  length, take, All, Bool-cases, String-cases, Option-cases, inl, inr, nat_eq,
}
use schematica_api.Database.{Database, PrismaService}
use schematica_api.Locking.{init, get_lock_status}
use schematica_api.Locking.Broadcasts.{last_sent, IsCoherent, step-IsCoherent, init-IsCoherent}
use schematica_api.Locking.Calls.{Call, step}
use schematica_api.Locking.Gateway.{
  Server, IsServer, LockingGateway, room_of, emit, start, disconnected, handle_connection,
  handle_subscribe, handle_unsubscribe, serve, Event, connects, disconnects, subscribes,
  unsubscribes, serves, handle, handle_all, IsReadBefore,
}
use schematica_api.Locking.Refinement.{live}
use schematica_api.Users.{has_user_id}
use schematica_api.Locking.Gateway.Messages.{
  step-Extends, fresh-append, last_sent-append, latest-live, live-live, status-live, room_of-apart,
  broadcast_all-rooms, broadcast_all-service, received-broadcast_all,
}

module _ {S : Type 0} (server : Server S) (laws : IsServer server) where
  -- Up to `t`: what a socket in the room of a resource was told last shows what was broadcast last.
  abbrev Follows : ℕ → LockingGateway S → Type 0
  Follows t g =
      (socket resource : String)
      → server.is_in socket (room_of resource) g.rooms ≡ true
      → live t (last_sent resource (g.received socket))
        ≡ live t (last_sent resource (g.service).sent)

  abbrev Knows : ℕ → LockingGateway S → Type 0
  Knows t g = IsCoherent g.service × Follows t g

  serve-Knows : (t : ℕ) (c : Call) (g : LockingGateway S) → Knows t g → Knows t (serve server c g)
  unfolding serve
  serve-Knows t c g (coherent, follows) =
      let (fresh, e) = step-Extends g.service c in
      let after = step g.service c in
      let told : take (length after.sent - length (g.service).sent) after.sent ≡ fresh =
        rw e (fresh-append fresh (g.service).sent) in
      let moved : LockingGateway S = record g { service = after } in
      (
        rw (serve, told, broadcast_all-service server fresh moved)
            (step-IsCoherent g.service c coherent),
        λ socket resource member.
            let here : server.is_in socket (room_of resource) g.rooms ≡ true =
              subst (λ rooms. server.is_in socket (room_of resource) rooms ≡ true)
                (broadcast_all-rooms server _ moved) member in
            rw
              (
                serve,
                told,
                received-broadcast_all server socket resource fresh moved here,
                broadcast_all-service server fresh moved,
                e,
                last_sent-append resource fresh (g.service).sent,
              )
              (latest-live t resource fresh _ _ (follows socket resource here)),
      )

  -- Leaving rooms keeps what is known in the others.
  fewer-Knows :
      (t : ℕ) (g : LockingGateway S) (rooms : S)
      → ((socket room : String)
          → server.is_in socket room rooms ≡ true
          → server.is_in socket room g.rooms ≡ true)
      → Knows t g
      → Knows t (record g { rooms = rooms })
  fewer-Knows t g rooms stayed (coherent, follows) =
      (coherent, λ socket resource member. follows socket resource (stayed socket _ member))

  disconnected-Knows :
      (t : ℕ) (client : String) (g : LockingGateway S)
      → Knows t g
      → Knows t (disconnected server client g)
  disconnected-Knows t client g =
      fewer-Knows t g (server.disconnect client g.rooms) (λ socket room member.
        ground (arith, member, laws.in_disconnect client socket room g.rooms))

  handle_unsubscribe-Knows :
      (t : ℕ) (client : String) (resource : Option String) (g : LockingGateway S)
      → Knows t g
      → Knows t (handle_unsubscribe server client resource g)
  unfolding handle_unsubscribe
  handle_unsubscribe-Knows t client none g h = h
  handle_unsubscribe-Knows t client (some resource) g h = elim (Bool-cases (resource == "")) [
    | inl nameless ↦ rw nameless h
    | inr named ↦ rw named (
        fewer-Knows t g (server.leave client (room_of resource) g.rooms)
          (λ socket room member.
            ground (arith, member, laws.in_leave client (room_of resource) socket room g.rooms))
          h)
  ]

  handle_connection-Knows :
      (prisma : PrismaService) (verify : String → Option JwtPayload) (db : Database) (t : ℕ)
      (client : String) (token : Option String) (g : LockingGateway S)
      → Knows t g
      → Knows t (handle_connection server prisma verify db client token g)
  unfolding handle_connection
  handle_connection-Knows prisma verify db t client none g h = disconnected-Knows t client g h
  handle_connection-Knows prisma verify db t client (some token) g h =
      elim (Option-cases (verify token)) [
        | inl e ↦ rw (handle_connection, e) (disconnected-Knows t client g h)
        | inr (payload, e) ↦
            elim (Option-cases (prisma.user.find_first (has_user_id payload.sub) db.users)) [
              | inl lost ↦ rw (handle_connection, e, lost) (disconnected-Knows t client g h)
              | inr (user, found) ↦
                  elim (Bool-cases (nat_eq user.token_version payload.token_version)) [
                    | inl current ↦ rw (handle_connection, e, found, current) h
                    | inr old ↦
                        rw (handle_connection, e, found, old) (disconnected-Knows t client g h)
                  ]
            ]
      ]

  -- A subscription tells the socket the state of the resource, and of no other.
  subscribed-Follows :
      (t now : ℕ) (client r : String) (g : LockingGateway S)
      → now ≤ t
      → Knows t g
      → (socket resource : String)
      → server.is_in socket (room_of resource) (server.join client (room_of r) g.rooms) ≡ true
      → live t
          (last_sent resource (emit client (r, get_lock_status r now g.service) g.received socket))
        ≡ live t (last_sent resource (g.service).sent)
  subscribed-Follows t now client r g early (coherent, follows) socket resource member =
      elim (String-cases client socket) [
        | inr (other, c) ↦ rw c (
            follows socket resource (
              ground (
                arith,
                member,
                c,
                laws.in_join client (room_of r) socket (room_of resource) g.rooms,
              )))
        | inl (own, c) ↦ elim (String-cases r resource) [
          | inl (here, f) ↦
              rw (c, f, here, status-live resource now g.service coherent) (live-live now t _ early)
          | inr (apart, f) ↦
              rw (c, f)
                (follows socket resource (
                  ground (
                    arith,
                    member,
                    room_of-apart r resource apart,
                    laws.in_join client (room_of r) socket (room_of resource) g.rooms,
                  )))
        ]
      ]

  handle_subscribe-Knows :
      (t now : ℕ) (client : String) (resource : Option String) (g : LockingGateway S)
      → now ≤ t
      → Knows t g
      → Knows t (handle_subscribe server client resource now g)
  unfolding handle_subscribe
  handle_subscribe-Knows t now client none g early h = h
  handle_subscribe-Knows t now client (some r) g early h = elim (Bool-cases (r == "")) [
    | inl nameless ↦ rw nameless h
    | inr named ↦ rw named (h.0, subscribed-Follows t now client r g early h)
  ]

  module _ (prisma : PrismaService) (verify : String → Option JwtPayload) (t : ℕ) where
    handle-Knows :
        (g : LockingGateway S) (e : Event)
        → IsReadBefore t e
        → Knows t g
        → Knows t (handle server prisma verify g e)
    unfolding handle
    handle-Knows g (connects db client token) early h =
        handle_connection-Knows prisma verify db t client token g h
    handle-Knows g (disconnects client) early h = disconnected-Knows t client g h
    handle-Knows g (subscribes client resource now) early h =
        handle_subscribe-Knows t now client resource g early h
    handle-Knows g (unsubscribes client resource) early h =
        handle_unsubscribe-Knows t client resource g h
    handle-Knows g (serves c) early h = serve-Knows t c g h

    handle_all-Knows :
        (g : LockingGateway S) (es : List Event)
        → All (IsReadBefore t) es
        → Knows t g
        → Knows t (handle_all server prisma verify g es)
    unfolding handle_all
    handle_all-Knows g [] early h = h
    handle_all-Knows g (e ∷ es) early h =
        handle_all-Knows (handle server prisma verify g e) es early.1 (handle-Knows g e early.0 h)

  start-Knows : (t duration : ℕ) → Knows t (start server duration)
  unfolding start init
  start-Knows t duration = (
    init-IsCoherent duration,
    λ socket resource member. ground (arith, member, laws.in_empty socket (room_of resource)),
  )

-- Whatever connections, subscriptions and calls of the locking service happen, in any order, a socket
-- that is in the room of a resource was last told the lock that the service reports for it: at any
-- time `t` from the subscriptions on, what it was told last and has not run out by then is the status
-- of the resource at `t`.
pub last_sent-live :
    {S : Type 0} (server : Server S)
    → IsServer server
    → (prisma : PrismaService) (verify : String → Option JwtPayload) (duration t : ℕ)
      (es : List Event) (socket resource : String)
    → All (IsReadBefore t) es
    → server.is_in socket
        (room_of resource)
        (handle_all server prisma verify (start server duration) es).rooms
      ≡ true
    → live t (
        last_sent resource
          ((handle_all server prisma verify (start server duration) es).received socket))
      ≡ get_lock_status resource t
          (handle_all server prisma verify (start server duration) es).service
last_sent-live server laws prisma verify duration t es socket resource early member =
    let (coherent, follows) =
      handle_all-Knows server laws prisma verify t (start server duration) es early
        (start-Knows server laws t duration) in
    follows socket resource member ∙ sym (status-live resource t _ coherent)
