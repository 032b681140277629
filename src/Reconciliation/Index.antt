-- ===== src/Reconciliation/Index.antt =====
-- The index of the existing endpoints by their key.
use schematica_api.Common.{
  String, ◌≡◌, ◌≢◌, ◌∙◌, inl, inr, refl, eq_iff, arith, some, List, [], ◌∷◌, In, All, String-cases,
}
use schematica_api.Common.Map
use schematica_api.Entities.{Endpoint}
use schematica_api.Reconciliation.{index_endpoints}
use schematica_api.Reconciliation.Operations.{create_endpoint_key}

abbrev pub key_of : Endpoint → String
key_of e = create_endpoint_key e.method e.path

-- No two endpoints have one key.
abbrev pub HasDistinctKeys : List Endpoint → Type 0
HasDistinctKeys [] = Unit
HasDistinctKeys (e ∷ es) = All (λ x. key_of x ≢ key_of e) es × HasDistinctKeys es

get-index_endpoints_other :
    (k : String) (es : List Endpoint) (by_key : List (String × Endpoint))
    → All (λ x. key_of x ≢ k) es
    → Map.get k (index_endpoints es by_key) ≡ Map.get k by_key
unfolding index_endpoints
get-index_endpoints_other k [] by_key h = refl
get-index_endpoints_other k (e ∷ es) by_key h =
    get-index_endpoints_other k es _ h.1
    ∙ ground (arith, Map.get-set (key_of e) k e by_key, eq_iff (key_of e) k, h.0)

-- Each endpoint is found under its key.
pub get-index_endpoints :
    (e : Endpoint) (es : List Endpoint) (by_key : List (String × Endpoint))
    → HasDistinctKeys es
    → In e es
    → Map.get (key_of e) (index_endpoints es by_key) ≡ some e
unfolding index_endpoints
get-index_endpoints e [] by_key d i = elim i [ ]
get-index_endpoints e (x ∷ es) by_key d (inl same) = rw same (
    get-index_endpoints_other (key_of x) es _ d.0
    ∙ ground (arith, Map.get-set (key_of x) (key_of x) x by_key, eq_iff (key_of x) (key_of x)))
get-index_endpoints e (x ∷ es) by_key d (inr i) = get-index_endpoints e es _ d.1 i

-- The entries of the index are endpoints under their keys.
abbrev pub IsIndex : List Endpoint → List (String × Endpoint) → Type 0
IsIndex es by_key = All (λ b. In b.1 es × (b.0 ≡ key_of b.1)) by_key

set-IsIndex :
    (es : List Endpoint) (e : Endpoint) (by_key : List (String × Endpoint))
    → In e es
    → IsIndex es by_key
    → IsIndex es (Map.set (key_of e) e by_key)
unfolding Map.set
set-IsIndex es e [] i h = ((i, refl), tt)
set-IsIndex es e ((k, x) ∷ by_key) i h = elim (String-cases k (key_of e)) [
  | inl (same, t) ↦ rw t ((i, same), h.1)
  | inr (other, t) ↦ rw t (h.0, set-IsIndex es e by_key i h.1)
]

pub index_endpoints-IsIndex :
    (all es : List Endpoint) (by_key : List (String × Endpoint))
    → All (λ e. In e all) es
    → IsIndex all by_key
    → IsIndex all (index_endpoints es by_key)
unfolding index_endpoints
index_endpoints-IsIndex all [] by_key i h = h
index_endpoints-IsIndex all (e ∷ es) by_key i h =
    index_endpoints-IsIndex all es _ i.1 (set-IsIndex all e by_key i.0 h)
