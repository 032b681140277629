-- ===== src/Environments/Tests.antt =====
-- Environments of a small state.
use schematica_api.Common.{◌≡◌, refl, none, some, [], ◌∷◌}
use schematica_api.Database.{memory_client}
use schematica_api.Entities.{Environment}
use schematica_api.Environments.{UpdateEnvironmentDto, update}
use schematica_api.Events.{Done, audit}
use schematica_api.Exceptions.{ok}
use schematica_api.Samples.{alice, db}

abbrev rename : UpdateEnvironmentDto
rename = record { name = some "staging"; description = none }

abbrev staging : Environment
staging = record { id = "v1"; name = "staging"; description = none; project_id = "p1" }

abbrev renamed : Done Environment
renamed = record {
  db = record db { environments = staging ∷ [] };
  events = audit alice "ENVIRONMENT_UPDATED" "v1" ∷ [];
  value = staging;
}

run : update memory_client db "p1" "v1" rename alice ≡ ok renamed
unfolding update
run = refl
