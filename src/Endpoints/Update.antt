-- ===== src/Endpoints/Update.antt =====
-- The optimistic concurrency of `update`: its write names the time of the last update that the
-- client has seen.
use schematica_api.ApiLinting.{Linter}
use schematica_api.Common.{
  String, Bool, true, false, ◌&&◌, ◌≡◌, ◌≢◌, refl, sym, subst, ◌∙◌, inl, inr, none, some, List, [],
  ◌∷◌, find, any, ◌==◌, eq_iff, arith, Option-cases, Bool-cases,
}
use schematica_api.Database.{Database, memory_client}
use schematica_api.Endpoints.{UpdateEndpointDto, update_try, updated_endpoint}
use schematica_api.Entities.{Endpoint, User, endpoint_clash}
use schematica_api.Events.{Done, endpoint_updated}
use schematica_api.Prisma.{replace_first, remove_first, has_clash}
use schematica_api.Prisma.Errors.{
  fine, raise, prisma_error, unique_constraint_failed, record_not_found,
}
use schematica_api.Prisma.Tables.{find-fits}
use schematica_api.User.{UserDto}

abbrev pub has_id : String → String → Endpoint → Bool
has_id project_id endpoint_id e = e.id == endpoint_id && e.project_id == project_id

abbrev pub is_current : String → String → String → Endpoint → Bool
is_current project_id endpoint_id at e =
    e.id == endpoint_id && (e.project_id == project_id && e.updated_at == at)

find-other :
    (project_id endpoint_id at : String) (x : Endpoint) (t : List Endpoint)
    → x.id ≡ endpoint_id
    → any (endpoint_clash x) t ≡ false
    → find (is_current project_id endpoint_id at) t ≡ none
find-other project_id endpoint_id at x [] same h = refl
find-other project_id endpoint_id at x (y ∷ t) same h =
    ground
      (arith, find-other project_id endpoint_id at x t, eq_iff x.id y.id, eq_iff y.id endpoint_id)

-- The row that replaces the current one has another time, so no row is current any more.
find-replace_first :
    (project_id endpoint_id at : String) (r : Endpoint) (t : List Endpoint)
    → r.updated_at ≢ at
    → r.id ≡ endpoint_id
    → has_clash endpoint_clash t ≡ false
    → find
        (is_current project_id endpoint_id at)
        (replace_first (is_current project_id endpoint_id at) r t)
      ≡ none
find-replace_first project_id endpoint_id at r [] new same clean = refl
find-replace_first project_id endpoint_id at r (x ∷ t) new same clean =
    elim (Bool-cases (is_current project_id endpoint_id at x)) [
      | inl h ↦ ground (
        arith,
        find-other project_id endpoint_id at x t,
        eq_iff r.updated_at at,
        eq_iff x.id endpoint_id,
      )
      | inr h ↦ ground (arith, find-replace_first project_id endpoint_id at r t)
    ]

module _ (spectral : Linter) (db : Database) (project_id endpoint_id : String)
    (dto : UpdateEndpointDto) (updater : UserDto) (now : String) where
  pub stale_in_memory :
      find (is_current project_id endpoint_id dto.last_known_updated_at) db.endpoints ≡ none
      → update_try memory_client db project_id endpoint_id dto updater now
        ≡ raise (prisma_error record_not_found)
  unfolding update_try
  stale_in_memory stale = elim (Option-cases (find (has_id project_id endpoint_id) db.endpoints)) [
    | inl e ↦ rw (e) refl
    | inr (row, e) ↦ elim (Option-cases (find (λ u. u.id == row.creator_id) db.users)) [
      | inl f ↦ rw (e, f) refl
      | inr (creator, f) ↦ rw (e, f) (ground (arith, stale))
    ]
  ]

  module _ (existing row : Endpoint) (creator : User)
      (found : find (has_id project_id endpoint_id) db.endpoints ≡ some existing)
      (created_by : find (λ u. u.id == existing.creator_id) db.users ≡ some creator)
      (current : find (is_current project_id endpoint_id dto.last_known_updated_at) db.endpoints
        ≡ some row) where
    abbrev pub new_row : Endpoint
    new_row = updated_endpoint memory_client dto updater creator.username existing now row

    abbrev pub written : Done Endpoint
    written = record {
      db = record db {
        endpoints =
            replace_first (is_current project_id endpoint_id dto.last_known_updated_at) new_row
              db.endpoints;
      };
      events = endpoint_updated updater project_id existing new_row ∷ [];
      value = new_row;
    }

    conflicting_in_memory :
        any (endpoint_clash new_row) (
            remove_first (is_current project_id endpoint_id dto.last_known_updated_at) db.endpoints)
          ≡ true
        → update_try memory_client db project_id endpoint_id dto updater now
          ≡ raise (prisma_error unique_constraint_failed)
    unfolding update_try
    conflicting_in_memory clash = rw (found, created_by) (ground (arith, current, clash))

    pub written_in_memory :
        any (endpoint_clash new_row) (
            remove_first (is_current project_id endpoint_id dto.last_known_updated_at) db.endpoints)
          ≡ false
        → any (λ u. u.id == updater.id) db.users ≡ true
        → update_try memory_client db project_id endpoint_id dto updater now ≡ fine written
    unfolding update_try
    written_in_memory clear known = rw (found, created_by) (ground (arith, current, clear, known))

  id_of :
      (row : Endpoint)
      → find (is_current project_id endpoint_id dto.last_known_updated_at) db.endpoints ≡ some row
      → row.id ≡ endpoint_id
  id_of row g = ground (
    arith,
    find-fits (is_current project_id endpoint_id dto.last_known_updated_at) db.endpoints row g,
    eq_iff row.id endpoint_id,
  )

  pub fresh_in_memory :
      (d : Done Endpoint)
      → has_clash endpoint_clash db.endpoints ≡ false
      → now ≢ dto.last_known_updated_at
      → update_try memory_client db project_id endpoint_id dto updater now ≡ fine d
      → find (is_current project_id endpoint_id dto.last_known_updated_at) (d.db).endpoints ≡ none
  unfolding update_try updated_endpoint
  fresh_in_memory d clean new success =
      elim (Option-cases (find (has_id project_id endpoint_id) db.endpoints)) [
        | inl e ↦ ground (arith, e)
        | inr (existing, e) ↦
            elim (Option-cases (find (λ u. u.id == existing.creator_id) db.users)) [
              | inl f ↦ ground (arith, e, f)
              | inr (creator, f) ↦
                  elim (Option-cases (
                    find (is_current project_id endpoint_id dto.last_known_updated_at)
                      db.endpoints)) [
                        | inl stale ↦ ground (arith, stale_in_memory stale)
                        | inr (row, g) ↦
                            elim (Bool-cases (
                              any (endpoint_clash (new_row existing row creator e f g)) (
                                remove_first
                                  (is_current project_id endpoint_id dto.last_known_updated_at)
                                  db.endpoints))) [
                                    | inl clash ↦ ground (
                                      arith,
                                      conflicting_in_memory existing row creator e f g clash,
                                    )
                                    | inr clear ↦
                                        elim (Bool-cases (any (λ u. u.id == updater.id) db.users)) [
                                          | inr unknown ↦
                                              ground (arith, e, f, g, clear, unknown, success)
                                          | inl known ↦
                                              let same : fine (written existing row creator e f g)
                                                  ≡ fine d =
                                                sym (
                                                  written_in_memory existing row creator e f g clear
                                                    known)
                                                ∙ success in
                                              let same_db : written existing row creator e f g ≡ d =
                                                cc in
                                              subst
                                                (λ x.
                                                  find
                                                    (is_current project_id endpoint_id
                                                      dto.last_known_updated_at)
                                                    (x.db).endpoints
                                                  ≡ none)
                                                same_db
                                                (find-replace_first project_id endpoint_id
                                                  dto.last_known_updated_at
                                                  (new_row existing row creator e f g) db.endpoints
                                                  new (id_of row g) clean)
                                        ]
                                  ]
                      ]
            ]
      ]
