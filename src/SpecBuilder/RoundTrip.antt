-- ===== src/SpecBuilder/RoundTrip.antt =====
-- Importing the document that was built from the endpoints changes nothing.
use schematica_api.Common.{String, ◌≡◌, ◌∙◌, ap, List, [], ◌∷◌, In, All, to_lower_case}
use schematica_api.Entities.{Endpoint, Project, SchemaComponent}
use schematica_api.Json.{get_field, entries}
use schematica_api.Reconciliation.{
  Visit, unchanged, index_endpoints, visit_paths, seen_keys, unseen_ids, reconcile,
}
use schematica_api.Reconciliation.Index.{key_of, HasDistinctKeys, IsIndex, index_endpoints-IsIndex}
use schematica_api.SpecBuilder.{build_paths, paths_object, build}
use schematica_api.SpecBuilder.Paths.{
  AllFrom, AllFrom-get, build_paths-AllFrom, build_paths-HasEntry,
}
use schematica_api.User.{UserDto}
use schematica_api.SpecBuilder.Quiet.{
  IsClean, IsQuiet, creates-nil, updates-nil, visit_method-from, IsQuiet-visit_paths,
}
use schematica_api.SpecBuilder.Seen.{In-keys, In-seen_paths, unseen_ids-nil, All-In_self, key_of-eq}

module _ (es : List Endpoint) (distinct : HasDistinctKeys es) (clean : All IsClean es)
    (user : UserDto) (project_id now : String) where
  built_visits : List Visit
  built_visits =
      visit_paths (index_endpoints es []) user project_id now
        (entries (paths_object (build_paths es [])))

  built-AllFrom : AllFrom es (build_paths es [])
  built-AllFrom = build_paths-AllFrom es es [] (All-In_self es) tt

  -- Every endpoint's key is seen.
  In-built_visits : (x : Endpoint) → In x es → In (key_of x) (seen_keys built_visits)
  unfolding built_visits
  In-built_visits x i =
      let (item, operation, f, g) = build_paths-HasEntry x es [] i in
      let (e, _, p, m, same) =
        visit_method-from es distinct clean user project_id now x.path (to_lower_case x.method) item
          operation (AllFrom-get es x.path item (build_paths es []) built-AllFrom f) g in
      In-seen_paths (index_endpoints es []) user project_id now x.path (to_lower_case x.method)
        (key_of x) item (build_paths es []) f (In-keys _ operation item g)
        (same ∙ ap unchanged (key_of-eq e x p m))

  IsIndex-In :
      (by_key : List (String × Endpoint))
      → IsIndex es by_key
      → All (λ b. In b.0 (seen_keys built_visits)) by_key
  IsIndex-In [] h = tt
  IsIndex-In ((k, x) ∷ by_key) h = (rw (h.0.1) (In-built_visits x h.0.0), IsIndex-In by_key h.1)

  built_visits-IsQuiet : All IsQuiet built_visits
  unfolding built_visits
  built_visits-IsQuiet =
      IsQuiet-visit_paths es distinct clean user project_id now (build_paths es []) built-AllFrom

  unseen_ids-built_visits : unseen_ids (index_endpoints es []) (seen_keys built_visits) ≡ []
  unseen_ids-built_visits =
      unseen_ids-nil _ _
        (IsIndex-In (index_endpoints es []) (index_endpoints-IsIndex es es [] (All-In_self es) tt))

-- A project's document, read back by an import, asks for no change of its endpoints: none is created,
-- updated or deleted. Their keys are distinct, their methods valid and their operations objects
-- without a reference.
pub reconcile-build :
    (project : Project) (es : List Endpoint) (components : List SchemaComponent) (user : UserDto)
    (project_id now : String)
    → HasDistinctKeys es
    → All IsClean es
    → reconcile es (build project es components) user project_id now
      ≡ record { to_create = []; to_update = []; to_delete_ids = [] }
unfolding reconcile build get_field built_visits
reconcile-build project es components user project_id now distinct clean = cc (
  creates-nil _ (built_visits-IsQuiet es distinct clean user project_id now),
  updates-nil _ (built_visits-IsQuiet es distinct clean user project_id now),
  unseen_ids-built_visits es distinct clean user project_id now,
)
