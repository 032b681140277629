-- ===== src/Projects/Import/Unchanged.antt =====
-- The import of a project's own document.
use schematica_api.ApiLinting.{Linter}
use schematica_api.Common.{
  String, false, not, ◌≡◌, inl, inr, refl, arith, List, [], ◌∷◌, find, any, keep, All, ◌==◌,
  Option-cases,
}
use schematica_api.Database.{Database, PrismaService, IsPrisma, memory_client, for_every_client}
use schematica_api.Entities.{Endpoint, Project, SchemaComponent, project_clash}
use schematica_api.Events.{Done, audit}
use schematica_api.Exceptions.{ok}
use schematica_api.Json.{Fields}
use schematica_api.Prisma.{updated}
use schematica_api.Prisma.Errors.{Try, fine, attempt, Try-cases}
use schematica_api.Projects.{has_project_id, is_current, with_projects}
use schematica_api.Projects.Import.{
  Parser, resolved, dereference, lint, title_of, imported_project, apply_document,
  import_open_api_spec, create_many, update_all,
}
use schematica_api.Reconciliation.{EndpointCreate}
use schematica_api.Reconciliation.Index.{HasDistinctKeys}
use schematica_api.SpecBuilder.{build}
use schematica_api.SpecBuilder.Quiet.{IsClean}
use schematica_api.SpecBuilder.RoundTrip.{reconcile-build}
use schematica_api.User.{UserDto}

keep-all : {A : Type 0} (xs : List A) → keep (λ x. not false) xs ≡ xs
keep-all [] = refl
keep-all (x ∷ xs) = rw (keep-all xs) refl

-- The endpoints of a project.
abbrev pub endpoints_of : String → Database → List Endpoint
endpoints_of project_id db = keep (λ e. e.project_id == project_id) db.endpoints

module _ (parser : Parser) (spectral : Linter) (db : Database) (project_id at : String)
    (project : Project) (components : List SchemaComponent) (user : UserDto)
    (new_id : EndpointCreate → String) (now : String)
    (distinct : HasDistinctKeys (endpoints_of project_id db))
    (clean : All IsClean (endpoints_of project_id db)) where
  abbrev document : Fields
  document = build project (endpoints_of project_id db) components

  abbrev write : String → Try (List Project × Project)
  write title = attempt (
      updated project_clash (any (λ u. u.id == user.id) db.users) (has_project_id project_id)
        (imported_project document title user now) (db.grants).projects)

  abbrev outcome : List Project × Project → Done Project
  outcome written = record {
    db = record (with_projects db written.0) {
      endpoints = keep (λ e. not false) db.endpoints;
      notes = keep (λ n. not false) db.notes;
    };
    events = audit user "PROJECT_SPEC_IMPORTED" project_id ∷ [];
    value = written.1;
  }

  applied :
      (d : Done Project)
      → apply_document memory_client db project_id document at user new_id now ≡ fine d
      → (written : List Project × Project) × (outcome written ≡ d)
  unfolding apply_document create_many update_all
  applied d h =
      let same_changes =
        reconcile-build project (endpoints_of project_id db) components user project_id now distinct
          clean in
      elim (Option-cases (find (is_current project_id at) (db.grants).projects)) [
        | inl a ↦ ground (arith, a)
        | inr (current, a) ↦ elim (Option-cases (title_of document)) [
          | inl t ↦ ground (arith, a, same_changes, t)
          | inr (title, t) ↦ elim (Try-cases (write title)) [
            | inl (e, w) ↦ ground (arith, a, same_changes, t, w)
            | inr (written, w) ↦
                let same : fine (outcome written) ≡ fine d =
                  ground (arith, a, same_changes, t, w, h) in
                (written, cc)
          ]
        ]
      ]

  imported_in_memory :
      (d : Done Project)
      → parser document ≡ resolved document
      → import_open_api_spec memory_client parser spectral db project_id document at user new_id now
        ≡ ok d
      → ((d.db).endpoints ≡ db.endpoints) × ((d.db).notes ≡ db.notes)
  unfolding import_open_api_spec dereference
  imported_in_memory d closed h = elim (Try-cases (lint spectral document)) [
    | inl (e, l) ↦ ground (arith, closed, l)
    | inr (u, l) ↦
        elim (Try-cases (apply_document memory_client db project_id document at user new_id now)) [
          | inl (e, t) ↦ ground (arith, closed, l, t)
          | inr (done, t) ↦
              let same : ok done ≡ ok d = ground (arith, closed, l, t, h) in
              let same_done : done ≡ d = cc in
              let (written, whole) = applied done t in
              rw (← same_done, ← whole) (keep-all db.endpoints, keep-all db.notes)
        ]
  ]

-- If the import of the document that is built from the endpoints of a project succeeds, the endpoints
-- and the notes are as before. The document has no references, and the endpoints have distinct keys,
-- valid methods and operations that are objects without a reference.
pub import-build :
    (client : PrismaService)
    → IsPrisma client
    → (parser : Parser) (spectral : Linter) (db : Database) (project_id at : String)
      (project : Project) (components : List SchemaComponent) (user : UserDto)
      (new_id : EndpointCreate → String) (now : String) (d : Done Project)
    → HasDistinctKeys (endpoints_of project_id db)
    → All IsClean (endpoints_of project_id db)
    → parser (build project (endpoints_of project_id db) components)
      ≡ resolved (build project (endpoints_of project_id db) components)
    → import_open_api_spec client parser spectral db project_id
        (build project (endpoints_of project_id db) components)
        at
        user
        new_id
        now
      ≡ ok d
    → ((d.db).endpoints ≡ db.endpoints) × ((d.db).notes ≡ db.notes)
import-build client laws parser spectral db project_id at project components user new_id now d
      distinct clean closed =
    for_every_client
      (λ c.
        import_open_api_spec c parser spectral db project_id
            (build project (endpoints_of project_id db) components) at user new_id now
          ≡ ok d
        → ((d.db).endpoints ≡ db.endpoints) × ((d.db).notes ≡ db.notes))
      client laws
      (λ h.
        imported_in_memory parser spectral db project_id at project components user new_id now
          distinct clean d closed h)
