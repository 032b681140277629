-- ===== src/Json/Objects.antt =====
-- The laws of objects: reading after writing, and what holds of every entry.
use schematica_api.Common.{String, ◌≡◌, refl, eq_iff, arith, some, ◌==◌, if◌then◌else◌}
use mathlib.Core.Path.{subst₂}
use schematica_api.Common.{String-cases, inl, inr}
use schematica_api.Common.Map.{is_some}
use schematica_api.Json.{Value, Fields, end, field, get_field, set_field, omit_field, has_field}

pub get_field-set_field :
    (key k : String) (value : Value) (fs : Fields)
    → get_field k (set_field key value fs) ≡ (if key == k then some value else get_field k fs)
unfolding get_field set_field
get_field-set_field key k value end = refl
get_field-set_field key k value (field j v fs) =
    ground (arith, eq_iff key k, eq_iff j key, eq_iff j k, get_field-set_field key k value fs)

pub omit_field-set_field :
    (key : String) (value : Value) (fs : Fields)
    → omit_field key (set_field key value fs) ≡ omit_field key fs
unfolding omit_field set_field
omit_field-set_field key value end = ground (arith, eq_iff key key)
omit_field-set_field key value (field j v fs) =
    ground (arith, eq_iff j key, omit_field-set_field key value fs)

-- A predicate on every entry of an object.
abbrev pub AllFields {ℓ} : (String → Value → Type ℓ) → Fields → Type ℓ
AllFields P end = Unit
AllFields P (field k v fs) = P k v × AllFields P fs

pub AllFields-get {ℓ} :
    (P : String → Value → Type ℓ) (key : String) (v : Value) (fs : Fields)
    → AllFields P fs
    → get_field key fs ≡ some v
    → P key v
unfolding get_field
AllFields-get P key v end h e = cc
AllFields-get P key v (field k w fs) h e = elim (String-cases k key) [
  | inl (same, t) ↦
      let found : some w ≡ some v = rw t at e in let w_v : w ≡ v = cc in subst₂ P same w_v h.0
  | inr (other, t) ↦ AllFields-get P key v fs h.1 (rw t at e)
]

pub AllFields-set {ℓ} :
    (P : String → Value → Type ℓ) (key : String) (v : Value) (fs : Fields)
    → P key v
    → AllFields P fs
    → AllFields P (set_field key v fs)
unfolding set_field
AllFields-set P key v end p h = (p, tt)
AllFields-set P key v (field k w fs) p h = elim (String-cases k key) [
  | inl (same, t) ↦ rw t (rw same p, h.1)
  | inr (other, t) ↦ rw t (h.0, AllFields-set P key v fs p h.1)
]

pub has_field-get : (key : String) (fs : Fields) → has_field key fs ≡ is_some (get_field key fs)
unfolding get_field has_field
has_field-get key end = refl
has_field-get key (field k v fs) = ground (arith, has_field-get key fs)
