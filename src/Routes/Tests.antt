-- ===== src/Routes/Tests.antt =====
-- Requests on a small state.
use schematica_api.ApiLinting.{Linter}
use schematica_api.Common.{
  String, ℕ, ◌≡◌, ◌≢◌, inr, inl, refl, arith, eq_iff, none, some, Option, false, [], ◌∷◌, parse_int,
}
use schematica_api.Common.Map
use schematica_api.Database.{Database, memory_client, memory_client-IsPrisma}
use schematica_api.Encryption.Clear.{clear}
use schematica_api.Entities.{Environment, Secret}
use schematica_api.Exceptions.{Exception, Lock, ok, throw}
use schematica_api.Endpoints.{UpdateEndpointDto}
use schematica_api.Json.{end}
use schematica_api.Locking.{LockingService, acquire_lock, init}
use schematica_api.Locking.Calls.{run, cleans, acquires}
use schematica_api.Routes.{put_endpoint}
use schematica_api.Routes.Editing.{put_endpoint_exclusive}
use schematica_api.Routes.Foreign.{IsDeletedBy, delete_secret_cross_project}
use schematica_api.Samples.{alice, bob, db}

abbrev silent : Linter
silent spec = some []

abbrev alice_lock : Lock
alice_lock = record { user_id = "u1"; username = "alice"; expires_at = 130 }

abbrev held : LockingService
held = record {
  locks = ("e1", alice_lock) ∷ [];
  sent = ("e1", some alice_lock) ∷ [];
  lock_duration_ms = 30;
}

acquired : acquire_lock "e1" alice 100 100 (init 30) ≡ ok (held, alice_lock)
unfolding acquire_lock init Map.get Map.set
acquired = refl

abbrev edit : UpdateEndpointDto
edit = record {
  path = "/items";
  method = "GET";
  operation = end;
  last_known_updated_at = "T0";
  status = none;
}

bob_ne_alice : ◌≢◌ {A = String} "u2" "u1"
bob_ne_alice = ground (arith, eq_iff "u2" "u1")

put_endpoint_exclusive_example :
    (e : Exception) × (put_endpoint memory_client silent db
        (run held (acquires "e1" bob 110 110 ∷ cleans 120 ∷ []))
        125
        bob
        "p1"
        "e1"
        edit
        "T1"
      ≡ throw e)
unfolding init
put_endpoint_exclusive_example =
    put_endpoint_exclusive memory_client silent "e1" alice 100 100 (init 30) held alice_lock
      (acquires "e1" bob 110 110 ∷ cleans 120 ∷ []) 125 db bob "p1" edit "T1" acquired tt
      ((omega arith, omega arith), (omega arith, tt)) (omega arith) bob_ne_alice

-- The environment v9 and its secret belong to another project.
abbrev foreign_environment : Environment
foreign_environment = record { id = "v9"; name = "live"; description = none; project_id = "p9" }

abbrev foreign_secret : Secret
foreign_secret = record {
  id = 7;
  key = "K";
  value = "V";
  description = none;
  environment_id = "v9";
}

abbrev two_projects : Database
two_projects = record db { environments = foreign_environment ∷ []; secrets = foreign_secret ∷ [] }

abbrev only_seven : String → Option ℕ
only_seven param = some 7

other_project : ◌≢◌ {A = String} "p9" "p1"
other_project = ground (arith, eq_iff "p9" "p1")

delete_secret_cross_project_example :
    IsDeletedBy memory_client clear only_seven two_projects alice "p1" "7" foreign_secret
unfolding parse_int
delete_secret_cross_project_example =
    delete_secret_cross_project memory_client memory_client-IsPrisma clear only_seven two_projects
      alice "p1" "7" (record { is_negative = false; magnitude = 7 }) foreign_environment
      foreign_secret refl (inr ((_, inl refl, refl), inl (_, inl refl, (refl, refl, refl))))
      (inl refl) other_project (inl refl) refl refl refl seven refl refl
  where
    seven : parse_int "7" ≡ some (record { is_negative = false; magnitude = 7 })
    seven = refl
