-- ===== src/Common/Map.antt =====
-- The JavaScript `Map` with text keys, in insertion order: `get`, `set` (an old key keeps its
-- place), `delete` and `has`.
use Prim.Native.String.{String}
use mathlib.Core.Path.{◌≡◌, refl}
use mathlib.Core.Bool.{Bool, true, false}
use mathlib.Core.Option.{Option, none, some}
use mathlib.Core.List.{List, [], ◌∷◌}
use native.Mathlib.Omega.{arith}
use text.Mathlib.Text.{◌==◌}
use text.Mathlib.TextEquality.{eq_iff}
use schematica_api.Common.Branch.{if◌then◌else◌}

abbrev pub is_some {ℓ} : {A : Type ℓ} → Option A → Bool
is_some none = false
is_some (some a) = true

module _ {ℓ} {V : Type ℓ} where
  unfoldable pub get : String → List (String × V) → Option V
  get k [] = none
  get k ((j, v) ∷ m) = if j == k then some v else get k m

  unfoldable pub set : String → V → List (String × V) → List (String × V)
  set k v [] = (k, v) ∷ []
  set k v ((j, w) ∷ m) = if j == k then (j, v) ∷ m else (j, w) ∷ set k v m

  unfoldable pub delete : String → List (String × V) → List (String × V)
  delete k [] = []
  delete k ((j, v) ∷ m) = if j == k then delete k m else (j, v) ∷ delete k m

  unfoldable pub has : String → List (String × V) → Bool
  has k [] = false
  has k ((j, v) ∷ m) = if j == k then true else has k m

  pub get-set :
      (key asked : String) (value : V) (m : List (String × V))
      → get asked (set key value m) ≡ (if key == asked then some value else get asked m)
  unfolding get set
  get-set key asked value [] = refl
  get-set key asked value ((first, old) ∷ rest) =
      ground (
        arith,
        get-set key asked value rest,
        eq_iff first asked,
        eq_iff first key,
        eq_iff key asked,
      )

  pub get-delete :
      (key asked : String) (m : List (String × V))
      → get asked (delete key m) ≡ (if key == asked then none else get asked m)
  unfolding get delete
  get-delete key asked [] = ground arith
  get-delete key asked ((first, old) ∷ rest) =
      ground
        (arith, get-delete key asked rest, eq_iff first asked, eq_iff first key, eq_iff key asked)

  pub has-get : (k : String) (m : List (String × V)) → has k m ≡ is_some (get k m)
  unfolding get has
  has-get k [] = refl
  has-get k ((j, v) ∷ m) = ground (arith, has-get k m)

  -- No key stands twice, as in every `Map`.
  abbrev pub IsMap : List (String × V) → Type ℓ
  IsMap [] = Unit
  IsMap ((k, v) ∷ m) = (get k m ≡ none) × IsMap m

  pub set-IsMap : (k : String) (v : V) (m : List (String × V)) → IsMap m → IsMap (set k v m)
  unfolding set get
  set-IsMap k v [] h = (refl, tt)
  set-IsMap k v ((j, w) ∷ m) h =
      ground (arith, eq_iff j k, eq_iff k j, get-set k j v m, set-IsMap k v m h.1)

  pub delete-IsMap : (k : String) (m : List (String × V)) → IsMap m → IsMap (delete k m)
  unfolding delete
  delete-IsMap k [] h = tt
  delete-IsMap k ((j, w) ∷ m) h = ground (arith, get-delete k j m, delete-IsMap k m h.1)
