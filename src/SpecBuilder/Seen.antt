-- ===== src/SpecBuilder/Seen.antt =====
-- Which keys the reading of a document has seen.
use schematica_api.Common.{
  String, true, ◌≡◌, inl, inr, refl, sym, ap, eq_refl, arith, some, List, [], ◌∷◌, ◌++◌, In,
  In-append_left, In-append_right, All, any, ◌==◌, to_lower_case, String-cases,
}
use schematica_api.Common.Map
use schematica_api.Entities.{Endpoint}
use schematica_api.Json.{Value, Fields, end, field, get_field, entries, keys}
use schematica_api.Reconciliation.{
  Visit, skipped, unchanged, updated, created, visit_method, visit_methods, visit_path_item,
  visit_paths, seen_keys, unseen_ids,
}
use schematica_api.Reconciliation.Operations.{create_endpoint_key}
use schematica_api.Reconciliation.Index.{key_of}
use schematica_api.SpecBuilder.{paths_object}
use schematica_api.User.{UserDto}

pub seen_keys-append : (vs ws : List Visit) → seen_keys (vs ++ ws) ≡ seen_keys vs ++ seen_keys ws
unfolding seen_keys
seen_keys-append [] ws = refl
seen_keys-append (skipped ∷ vs) ws = seen_keys-append vs ws
seen_keys-append (unchanged k ∷ vs) ws = ap (λ l. k ∷ l) (seen_keys-append vs ws)
seen_keys-append (updated k u ∷ vs) ws = ap (λ l. k ∷ l) (seen_keys-append vs ws)
seen_keys-append (created k c ∷ vs) ws = ap (λ l. k ∷ l) (seen_keys-append vs ws)

pub any-In : (k : String) (ks : List String) → In k ks → any (λ j. j == k) ks ≡ true
any-In k [] i = elim i [ ]
any-In k (j ∷ ks) (inl same) = rw (same, eq_refl j)
any-In k (j ∷ ks) (inr i) = ground (arith, any-In k ks i)

pub In-keys : (k : String) (v : Value) (fs : Fields) → get_field k fs ≡ some v → In k (keys fs)
unfolding get_field keys
In-keys k v end e = cc
In-keys k v (field j w fs) e = elim (String-cases j k) [
  | inl (same, t) ↦ inl (sym same)
  | inr (other, t) ↦ inr (In-keys k v fs (rw t at e))
]

pub In-seen_more :
    (v : Visit) (vs : List Visit) (key : String)
    → In key (seen_keys vs)
    → In key (seen_keys (v ∷ vs))
unfolding seen_keys
In-seen_more skipped vs key i = i
In-seen_more (unchanged k) vs key i = inr i
In-seen_more (updated k u) vs key i = inr i
In-seen_more (created k c) vs key i = inr i

module _ (by_key : List (String × Endpoint)) (user : UserDto) (project_id now : String) where
  pub In-seen_methods :
      (path method key : String) (item : Fields) (methods : List String)
      → visit_method by_key user project_id now path item method ≡ unchanged key
      → In method methods
      → In key (seen_keys (visit_methods by_key user project_id now path item methods))
  unfolding visit_methods seen_keys
  In-seen_methods path method key item [] e i = elim i [ ]
  In-seen_methods path method key item (m ∷ ms) e (inl same) = rw (← same, e, seen_keys) (inl refl)
  In-seen_methods path method key item (m ∷ ms) e (inr i) =
      let later = In-seen_methods path method key item ms e i in
      In-seen_more (visit_method by_key user project_id now path item m) _ key later

  pub In-seen_paths :
      (path method key : String) (item : Fields) (paths : List (String × Fields))
      → Map.get path paths ≡ some item
      → In method (keys item)
      → visit_method by_key user project_id now path item method ≡ unchanged key
      → In key (seen_keys (visit_paths by_key user project_id now (entries (paths_object paths))))
  unfolding visit_paths visit_path_item paths_object entries Map.get
  In-seen_paths path method key item [] f i e = cc
  In-seen_paths path method key item ((p, it) ∷ paths) f i e = elim (String-cases p path) [
    | inl (same, t) ↦
        let found : some it ≡ some item = rw t at f in
        let it_item : it ≡ item = cc in
        rw (seen_keys-append, same, it_item)
          (In-append_left key _ _ (In-seen_methods path method key item (keys item) e i))
    | inr (other, t) ↦
        rw seen_keys-append
          (In-append_right key _ _ (In-seen_paths path method key item paths (rw t at f) i e))
  ]

pub unseen_ids-nil :
    (by_key : List (String × Endpoint)) (seen : List String)
    → All (λ b. In b.0 seen) by_key
    → unseen_ids by_key seen ≡ []
unfolding unseen_ids
unseen_ids-nil [] seen h = refl
unseen_ids-nil ((k, e) ∷ by_key) seen h = rw (any-In k seen h.0) (unseen_ids-nil by_key seen h.1)

pub All-In_sub :
    {A : Type 0} (xs ys : List A) → ((a : A) → In a xs → In a ys) → All (λ x. In x ys) xs
All-In_sub [] ys f = tt
All-In_sub (x ∷ xs) ys f = (f x (inl refl), All-In_sub xs ys (λ a i. f a (inr i)))

pub All-In_self : {A : Type 0} (xs : List A) → All (λ x. In x xs) xs
All-In_self xs = All-In_sub xs xs (λ a i. i)

pub key_of-eq :
    (e x : Endpoint)
    → e.path ≡ x.path
    → to_lower_case e.method ≡ to_lower_case x.method
    → key_of e ≡ key_of x
unfolding create_endpoint_key
key_of-eq e x p m = rw (p, m)
