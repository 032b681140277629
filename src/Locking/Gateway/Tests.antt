-- ===== src/Locking/Gateway/Tests.antt =====
-- Sockets that follow the lock of an endpoint.
use schematica_api.Auth.{JwtPayload}
use schematica_api.Common.{
  String, Bool, true, false, ◌&&◌, ◌==◌, ◌≡◌, refl, arith, Option, none, some, List, [], ◌∷◌,
  if◌then◌else◌,
}
use schematica_api.Common.Map
use schematica_api.Database.{memory_client}
use schematica_api.Locking.{init, acquire_lock, get_lock_status}
use schematica_api.Locking.Broadcasts.{last_sent}
use schematica_api.Locking.Calls.{acquires, step}
use schematica_api.Locking.Gateway.{
  Server, IsServer, Event, subscribes, serves, start, handle_all, room_of, handle, broadcast_all,
  broadcast, handle_subscribe, serve,
}
use schematica_api.Locking.Gateway.Followers.{last_sent-live}
use schematica_api.Locking.Refinement.{live}
use schematica_api.Samples.{alice}

-- The rooms as a test.
abbrev tests : Server (String → String → Bool)
tests = record {
  empty = λ socket room. false;
  join = λ s r rooms socket room. if s == socket && r == room then true else rooms socket room;
  leave = λ s r rooms socket room. if s == socket && r == room then false else rooms socket room;
  disconnect = λ s rooms socket room. if s == socket then false else rooms socket room;
  is_in = λ socket room rooms. rooms socket room;
}

tests-IsServer : IsServer tests
tests-IsServer = record {
  in_empty = λ socket room. refl;
  in_join = λ s r socket room rooms. refl;
  in_leave = λ s r socket room rooms. refl;
  in_disconnect = λ s socket room rooms. refl;
}

no_token : String → Option JwtPayload
no_token token = none

-- Bob follows the endpoint while Alice takes its lock.
abbrev events : List Event
events =
    serves (acquires "e1" alice 100 100)
    ∷ subscribes "s1" (some "e1") 110
    ∷ serves (acquires "e1" alice 120 120)
    ∷ []

joined :
    tests.is_in "s1"
      (room_of "e1")
      (handle_all tests memory_client no_token (start tests 30) events).rooms
    ≡ true
unfolding handle_all handle handle_subscribe serve broadcast_all broadcast start init step
    acquire_lock Map.get Map.set get_lock_status
joined = refl

last_sent-live_example :
    live 130 (
      last_sent "e1"
        ((handle_all tests memory_client no_token (start tests 30) events).received "s1"))
    ≡ get_lock_status "e1" 130
        (handle_all tests memory_client no_token (start tests 30) events).service
last_sent-live_example =
    last_sent-live tests tests-IsServer memory_client no_token 30 130 events "s1" "e1"
      (tt, (omega arith, (tt, tt))) joined
