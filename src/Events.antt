-- ===== src/Events.antt =====
-- The events that the services emit (audit/audit.events.ts, changelog/changelog.events.ts and
-- notifications/notifications.events.ts), and what a request that succeeds leaves behind.
use schematica_api.Common.{String, List}
use schematica_api.Database.{Database}
use schematica_api.Entities.{Endpoint, EndpointStatus, Note}
use schematica_api.User.{UserDto}

pub data Event : Type 0 where
  -- the actor, the action and the target's id
  audit : UserDto → String → String → Event
  -- the actor, the project, and the endpoint's id, method and path
  endpoint_created endpoint_deleted : UserDto → String → String → String → String → Event
  endpoint_updated : UserDto → String → Endpoint → Endpoint → Event
  endpoint_status_updated : UserDto → String → Endpoint → EndpointStatus → EndpointStatus → Event
  review_requested : UserDto → String → Endpoint → Event
  note_created note_updated : UserDto → Note → String → String → Event

-- The database after the request, the events in the order in which they are emitted, the answer.
pub record Done {ℓ} (A : Type ℓ) : Type ℓ where
  pub db : Database
  pub events : List Event
  pub value : A
