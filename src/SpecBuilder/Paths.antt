-- ===== src/SpecBuilder/Paths.antt =====
-- What stands in the `paths` of a built document: every endpoint's operation, and nothing else.
use schematica_api.Common.{
  String, ◌≡◌, inl, inr, refl, eq_iff, arith, none, some, List, [], ◌∷◌, In, All, to_lower_case,
  String-cases, Option-cases,
}
use schematica_api.Common.Map
use schematica_api.Entities.{Endpoint}
use schematica_api.Json.{Value, Fields, end, get_field, set_field}
use schematica_api.Json.Objects.{AllFields, AllFields-set, get_field-set_field}
use schematica_api.SpecBuilder.{add_endpoint, build_paths}

-- The entry for `method` under `path` is the operation of one of the endpoints.
abbrev pub IsFrom : List Endpoint → String → String → Value → Type 0
IsFrom es path method operation =
    (e : Endpoint) × In e es
    × (e.path ≡ path)
    × (to_lower_case e.method ≡ method)
    × (e.operation ≡ operation)

abbrev pub AllFrom : List Endpoint → List (String × Fields) → Type 0
AllFrom es [] = Unit
AllFrom es ((path, item) ∷ paths) = AllFields (IsFrom es path) item × AllFrom es paths

pub AllFrom-get :
    (es : List Endpoint) (path : String) (item : Fields) (paths : List (String × Fields))
    → AllFrom es paths
    → Map.get path paths ≡ some item
    → AllFields (IsFrom es path) item
unfolding Map.get
AllFrom-get es path item [] h e = cc
AllFrom-get es path item ((p, i) ∷ paths) h e = elim (String-cases p path) [
  | inl (same, t) ↦
      let found : some i ≡ some item = rw t at e in
      let i_item : i ≡ item = cc in rw (← same, ← i_item) h.0
  | inr (other, t) ↦ AllFrom-get es path item paths h.1 (rw t at e)
]

AllFrom-set :
    (es : List Endpoint) (path : String) (item : Fields) (paths : List (String × Fields))
    → AllFields (IsFrom es path) item
    → AllFrom es paths
    → AllFrom es (Map.set path item paths)
unfolding Map.set
AllFrom-set es path item [] g h = (g, tt)
AllFrom-set es path item ((p, i) ∷ paths) g h = elim (String-cases p path) [
  | inl (same, t) ↦ rw t (rw same g, h.1)
  | inr (other, t) ↦ rw t (h.0, AllFrom-set es path item paths g h.1)
]

add_endpoint-AllFrom :
    (es : List Endpoint) (e : Endpoint) (paths : List (String × Fields))
    → In e es
    → AllFrom es paths
    → AllFrom es (add_endpoint e paths)
unfolding add_endpoint
add_endpoint-AllFrom es e paths i h = elim (Option-cases (Map.get e.path paths)) [
  | inl none_yet ↦
      rw (none_yet, add_endpoint)
        (AllFrom-set es e.path _ paths
          (AllFields-set (IsFrom es e.path) _ _ end (e, i, refl, refl, refl) tt) h)
  | inr (item, found) ↦
      rw (found, add_endpoint)
        (AllFrom-set es e.path _ paths
          (AllFields-set (IsFrom es e.path) _ _ item (e, i, refl, refl, refl)
            (AllFrom-get es e.path item paths h found))
          h)
]

pub build_paths-AllFrom :
    (all es : List Endpoint) (paths : List (String × Fields))
    → All (λ e. In e all) es
    → AllFrom all paths
    → AllFrom all (build_paths es paths)
unfolding build_paths
build_paths-AllFrom all [] paths i h = h
build_paths-AllFrom all (e ∷ es) paths i h =
    build_paths-AllFrom all es (add_endpoint e paths) i.1 (add_endpoint-AllFrom all e paths i.0 h)

-- There is an entry under the endpoint's path and lower-case method.
abbrev pub HasEntry : Endpoint → List (String × Fields) → Type 0
HasEntry e paths =
    (item : Fields) × (operation : Value) × (Map.get e.path paths ≡ some item)
    × (get_field (to_lower_case e.method) item ≡ some operation)

add_endpoint-HasEntry_self :
    (e : Endpoint) (paths : List (String × Fields)) → HasEntry e (add_endpoint e paths)
unfolding add_endpoint
add_endpoint-HasEntry_self e paths =
    let item : Fields = elim (Map.get e.path paths) [ none ↦ end | some fs ↦ fs ] in
    (
      set_field (to_lower_case e.method) e.operation item,
      e.operation,
      ground (
        arith,
        Map.get-set e.path e.path (set_field (to_lower_case e.method) e.operation item) paths,
        eq_iff e.path e.path,
      ),
      ground (
        arith,
        get_field-set_field (to_lower_case e.method) (to_lower_case e.method) e.operation item,
        eq_iff (to_lower_case e.method) (to_lower_case e.method),
      ),
    )

-- Writing one method of an item keeps the others.
set_field-has :
    (m k : String) (v op : Value) (item : Fields)
    → get_field k item ≡ some op
    → (w : Value) × (get_field k (set_field m v item) ≡ some w)
set_field-has m k v op item g = elim (String-cases m k) [
  | inl (same, t) ↦ (v, rw (get_field-set_field, t))
  | inr (other, t) ↦ (op, rw (get_field-set_field, t) g)
]

add_endpoint-HasEntry :
    (x e : Endpoint) (paths : List (String × Fields))
    → HasEntry x paths
    → HasEntry x (add_endpoint e paths)
unfolding add_endpoint
add_endpoint-HasEntry x e paths (item, op, f, g) = elim (String-cases e.path x.path) [
  | inr (other, t) ↦ (item, op, rw (Map.get-set, t) f, g)
  | inl (same, t) ↦
      let (w, there) =
        set_field-has (to_lower_case e.method) (to_lower_case x.method) e.operation op item g in
      let here : Map.get e.path paths ≡ some item = rw same f in
      (
        set_field (to_lower_case e.method) e.operation item,
        w,
        rw (here, add_endpoint, Map.get-set, t),
        there,
      )
]

build_paths-HasEntry_old :
    (x : Endpoint) (es : List Endpoint) (paths : List (String × Fields))
    → HasEntry x paths
    → HasEntry x (build_paths es paths)
unfolding build_paths
build_paths-HasEntry_old x [] paths h = h
build_paths-HasEntry_old x (e ∷ es) paths h =
    build_paths-HasEntry_old x es (add_endpoint e paths) (add_endpoint-HasEntry x e paths h)

pub build_paths-HasEntry :
    (x : Endpoint) (es : List Endpoint) (paths : List (String × Fields))
    → In x es
    → HasEntry x (build_paths es paths)
unfolding build_paths
build_paths-HasEntry x [] paths i = elim i [ ]
build_paths-HasEntry x (e ∷ es) paths (inl same) =
    rw same (build_paths-HasEntry_old e es _ (add_endpoint-HasEntry_self e paths))
build_paths-HasEntry x (e ∷ es) paths (inr i) = build_paths-HasEntry x es (add_endpoint e paths) i
