-- ===== src/Notifications/Sockets.antt =====
-- What holds of the sockets after any history of connections and disconnections.
use schematica_api.Common.Map
use schematica_api.Common.Map.{IsMap, set-IsMap, get-set}
use schematica_api.Common.{
  String, false, ◌≡◌, ◌≢◌, inl, inr, refl, eq_iff, arith, none, List, [], ◌∷◌, All, ◌==◌,
  Bool-cases,
}
use schematica_api.Notifications.{
  UserSockets, contains, add, discard, connect, is_empty, handle_disconnect,
  send_notification_to_user, or_empty,
}

pub data Call : Type 0 where
  -- the user and the socket
  connects : String → String → Call
  disconnects : String → Call

pub run : List Call → UserSockets → UserSockets
run [] sockets = sockets
run (connects user_id socket_id ∷ calls) sockets = run calls (connect user_id socket_id sockets)
run (disconnects socket_id ∷ calls) sockets = run calls (handle_disconnect socket_id sockets)

-- No user stands twice in the map, and none without a socket.
abbrev pub IsTidy : UserSockets → Type 0
IsTidy sockets = IsMap sockets × All (λ b. is_empty b.1 ≡ false) sockets

add-filled : (id : String) (ids : List String) → is_empty (add id ids) ≡ false
add-filled id [] = refl
add-filled id (i ∷ ids) = ground arith

set-filled :
    (key : String) (ids : List String) (sockets : UserSockets)
    → is_empty ids ≡ false
    → All (λ b. is_empty b.1 ≡ false) sockets
    → All (λ b. is_empty b.1 ≡ false) (Map.set key ids sockets)
unfolding Map.set
set-filled key ids [] filled h = (filled, tt)
set-filled key ids ((k, old) ∷ rest) filled h = elim (Bool-cases (k == key)) [
  | inl t ↦ rw t (filled, h.1)
  | inr f ↦ rw f (h.0, set-filled key ids rest filled h.1)
]

-- A disconnection adds no key.
get-handle_disconnect :
    (key socket_id : String) (sockets : UserSockets)
    → Map.get key sockets ≡ none
    → Map.get key (handle_disconnect socket_id sockets) ≡ none
unfolding Map.get handle_disconnect
get-handle_disconnect key socket_id [] h = refl
get-handle_disconnect key socket_id ((k, ids) ∷ rest) h =
    ground (arith, get-handle_disconnect key socket_id rest)

handle_disconnect-IsTidy :
    (socket_id : String) (sockets : UserSockets)
    → IsTidy sockets
    → IsTidy (handle_disconnect socket_id sockets)
unfolding handle_disconnect Map.get
handle_disconnect-IsTidy socket_id [] h = (tt, tt)
handle_disconnect-IsTidy socket_id ((k, ids) ∷ rest) h =
    elim (Bool-cases (contains socket_id ids)) [
      | inl has ↦ elim (Bool-cases (is_empty (discard socket_id ids))) [
        | inl last ↦ rw (has, last) (h.0.1, h.1.1)
        | inr more ↦ rw (has, more) (h.0, (more, h.1.1))
      ]
      | inr other ↦
          let (map, filled) = handle_disconnect-IsTidy socket_id rest (h.0.1, h.1.1) in
          rw other ((get-handle_disconnect k socket_id rest h.0.0, map), (h.1.0, filled))
    ]

connect-IsTidy :
    (user_id socket_id : String) (sockets : UserSockets)
    → IsTidy sockets
    → IsTidy (connect user_id socket_id sockets)
unfolding connect
connect-IsTidy user_id socket_id sockets h = (
  set-IsMap user_id _ sockets h.0,
  set-filled user_id _ sockets (add-filled socket_id (or_empty (Map.get user_id sockets))) h.1,
)

-- After any history of connections and disconnections that starts from a tidy map, no user stands
-- twice in the map, and none without a socket.
pub run-IsTidy :
    (calls : List Call) (sockets : UserSockets) → IsTidy sockets → IsTidy (run calls sockets)
unfolding run
run-IsTidy [] sockets h = h
run-IsTidy (connects user_id socket_id ∷ calls) sockets h =
    run-IsTidy calls (connect user_id socket_id sockets)
      (connect-IsTidy user_id socket_id sockets h)
run-IsTidy (disconnects socket_id ∷ calls) sockets h =
    run-IsTidy calls (handle_disconnect socket_id sockets)
      (handle_disconnect-IsTidy socket_id sockets h)

-- A connection adds its socket to those that receive the notifications of its user, after the others
-- and at most once, and changes nothing for the other users.
pub send-connect :
    (user_id other socket_id : String) (sockets : UserSockets)
    → (send_notification_to_user user_id (connect user_id socket_id sockets)
        ≡ add socket_id (send_notification_to_user user_id sockets))
      × (other ≢ user_id
          → send_notification_to_user other (connect user_id socket_id sockets)
            ≡ send_notification_to_user other sockets)
unfolding send_notification_to_user connect
send-connect user_id other socket_id sockets = (
  rw (get-set user_id user_id (add socket_id (or_empty (Map.get user_id sockets))) sockets)
      (ground (arith, eq_iff user_id user_id)),
  λ apart.
      rw (get-set user_id other (add socket_id (or_empty (Map.get user_id sockets))) sockets)
        (ground (arith, eq_iff user_id other)),
)
