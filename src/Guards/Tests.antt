-- ===== src/Guards/Tests.antt =====
-- Guards on a small state.
use schematica_api.Access.Rules.{MayView}
use schematica_api.Common.{◌≡◌, ◌↔◌, true, refl, none, some, parse_int}
use schematica_api.Database.{memory_client, memory_client-IsPrisma}
use schematica_api.Exceptions.{ok}
use schematica_api.Guards.{note_permission_guard, get_project_id_from_request}
use schematica_api.Guards.Rules.{note_permission_guard_iff}
use schematica_api.Samples.{alice, db}

leads : get_project_id_from_request memory_client db none (some "1") ≡ ok "p1"
unfolding get_project_id_from_request parse_int
leads = refl

note_permission_guard_iff_example :
    (note_permission_guard memory_client db alice none (some "1") true ≡ ok true)
    ↔ MayView db.grants alice "p1"
note_permission_guard_iff_example =
    note_permission_guard_iff memory_client memory_client-IsPrisma db alice none (some "1") true
      "p1" refl leads
