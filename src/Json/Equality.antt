-- ===== src/Json/Equality.antt =====
-- `JSON.stringify(a) === JSON.stringify(b)`: two values print the same text exactly when they have
-- the same shape, the same texts and numbers, and the same keys in the same order.
use schematica_api.Common.{Bool, true, false, ◌&&◌, ◌≡◌, refl, ap, eq_iff, eq_refl, ◌==◌, ◌↔◌}
use mathlib.Core.Bool.{and-eq-true_iff}
use schematica_api.Json.{
  Value, null, bool, num, str, arr, obj, Items, nil, cons, Fields, end, field,
}

bool_eq : Bool → Bool → Bool
bool_eq true true = true
bool_eq false false = true
bool_eq _ _ = false

bool_eq_sound : (a b : Bool) → bool_eq a b ≡ true → a ≡ b
unfolding bool_eq
bool_eq_sound true true h = refl
bool_eq_sound false false h = refl
bool_eq_sound a b h = cc

unfoldable mutual
  unfolding bool_eq

  pub prints_same : Value → Value → Bool
  prints_same null null = true
  prints_same (bool a) (bool b) = bool_eq a b
  prints_same (num a) (num b) = a == b
  prints_same (str a) (str b) = a == b
  prints_same (arr xs) (arr ys) = items_print_same xs ys
  prints_same (obj fs) (obj gs) = fields_print_same fs gs
  prints_same _ _ = false

  pub items_print_same : Items → Items → Bool
  items_print_same nil nil = true
  items_print_same (cons x xs) (cons y ys) = prints_same x y && items_print_same xs ys
  items_print_same _ _ = false

  pub fields_print_same : Fields → Fields → Bool
  fields_print_same end end = true
  fields_print_same (field j v fs) (field k w gs) =
      j == k && (prints_same v w && fields_print_same fs gs)
  fields_print_same _ _ = false

mutual
  unfolding prints_same items_print_same fields_print_same bool_eq

  prints_same_refl : (v : Value) → prints_same v v ≡ true
  prints_same_refl null = refl
  prints_same_refl (bool true) = refl
  prints_same_refl (bool false) = refl
  prints_same_refl (num a) = eq_refl a
  prints_same_refl (str a) = eq_refl a
  prints_same_refl (arr xs) = items_print_same_refl xs
  prints_same_refl (obj fs) = fields_print_same_refl fs

  items_print_same_refl : (xs : Items) → items_print_same xs xs ≡ true
  items_print_same_refl nil = refl
  items_print_same_refl (cons x xs) = rw (prints_same_refl x) (items_print_same_refl xs)

  fields_print_same_refl : (fs : Fields) → fields_print_same fs fs ≡ true
  fields_print_same_refl end = refl
  fields_print_same_refl (field j v fs) =
      rw (eq_refl j, prints_same_refl v) (fields_print_same_refl fs)

mutual
  unfolding prints_same items_print_same fields_print_same

  prints_same_sound : (v w : Value) → prints_same v w ≡ true → v ≡ w
  prints_same_sound null null h = refl
  prints_same_sound (bool a) (bool b) h = ap bool (bool_eq_sound a b h)
  prints_same_sound (num a) (num b) h = ap num ((eq_iff a b).0 h)
  prints_same_sound (str a) (str b) h = ap str ((eq_iff a b).0 h)
  prints_same_sound (arr xs) (arr ys) h = ap arr (items_print_same_sound xs ys h)
  prints_same_sound (obj fs) (obj gs) h = ap obj (fields_print_same_sound fs gs h)
  prints_same_sound _ _ h = cc

  items_print_same_sound : (xs ys : Items) → items_print_same xs ys ≡ true → xs ≡ ys
  items_print_same_sound nil nil h = refl
  items_print_same_sound (cons x xs) (cons y ys) h =
      let (here, later) = (and-eq-true_iff (prints_same x y) (items_print_same xs ys)).0 h in
      cc (prints_same_sound x y here, items_print_same_sound xs ys later)
  items_print_same_sound _ _ h = cc

  fields_print_same_sound : (fs gs : Fields) → fields_print_same fs gs ≡ true → fs ≡ gs
  fields_print_same_sound end end h = refl
  fields_print_same_sound (field j v fs) (field k w gs) h =
      let (key, rest) =
        (and-eq-true_iff (j == k) (prints_same v w && fields_print_same fs gs)).0 h in
      let (here, later) = (and-eq-true_iff (prints_same v w) (fields_print_same fs gs)).0 rest in
      cc ((eq_iff j k).0 key, prints_same_sound v w here, fields_print_same_sound fs gs later)
  fields_print_same_sound _ _ h = cc

pub fields_print_same_iff : (fs gs : Fields) → (fields_print_same fs gs ≡ true) ↔ (fs ≡ gs)
fields_print_same_iff fs gs = (fields_print_same_sound fs gs, λ e. rw e (fields_print_same_refl gs))
