-- ===== src/Prisma/Tables.antt =====
-- Facts about tables: the unique constraints under changes, and searches.
use schematica_api.Common.{
  ◌<◌, any-keep, Bool, true, false, ◌≡◌, inl, inr, refl, arith, none, some, List, [], ◌∷◌, any,
  find, keep, length, if◌then◌else◌, Bool-cases,
}
use schematica_api.Prisma.{replace_first, patch_all, has_clash}

module _ {Row : Type 0} where
  pub find-none : (p : Row → Bool) (t : List Row) → any p t ≡ false → find p t ≡ none
  find-none p [] h = refl
  find-none p (x ∷ t) h = ground (arith, find-none p t)

  -- A patch that leaves the constrained columns alone keeps the constraints.
  module _ (clash : Row → Row → Bool) (p : Row → Bool) (f : Row → Row)
      (left : (a b : Row) → clash (f a) b ≡ clash a b)
      (right : (a b : Row) → clash a (f b) ≡ clash a b) where
    any-clash-patch_all :
        (x : Row) (t : List Row)
        → any (clash (if p x then f x else x)) (patch_all p f t) ≡ any (clash x) t
    any-clash-patch_all x [] = refl
    any-clash-patch_all x (y ∷ t) = elim (Bool-cases (p x)) [
      | inl hx ↦ elim (Bool-cases (p y)) [
        | inl hy ↦ ground (arith, any-clash-patch_all x t, left x (f y), right x y)
        | inr hy ↦ ground (arith, any-clash-patch_all x t, left x y)
      ]
      | inr hx ↦ elim (Bool-cases (p y)) [
        | inl hy ↦ ground (arith, any-clash-patch_all x t, right x y)
        | inr hy ↦ ground (arith, any-clash-patch_all x t)
      ]
    ]

    pub has_clash-patch_all : (t : List Row) → has_clash clash (patch_all p f t) ≡ has_clash clash t
    has_clash-patch_all [] = refl
    has_clash-patch_all (x ∷ t) = rw (any-clash-patch_all x t, has_clash-patch_all t)

  pub length-keep_none : (p : Row → Bool) (t : List Row) → any p t ≡ false → length (keep p t) ≡ 0
  length-keep_none p [] h = refl
  length-keep_none p (x ∷ t) h = ground (arith, length-keep_none p t)

  pub length-keep_some : (p : Row → Bool) (t : List Row) → any p t ≡ true → 0 < length (keep p t)
  length-keep_some p t h = ground (arith, any-keep p t)

  pub find-some :
      (p : Row → Bool) (t : List Row)
      → any p t ≡ true
      → (r : Row) × (find p t ≡ some r) × (p r ≡ true)
  find-some p [] h = cc
  find-some p (x ∷ t) h = elim (Bool-cases (p x)) [
    | inl here ↦ (x, rw here, here)
    | inr other ↦ let (r, found, fits) = find-some p t (rw other at h) in (r, rw other found, fits)
  ]

  pub any-patch_all :
      (p q : Row → Bool) (f : Row → Row) (t : List Row)
      → ((x : Row) → p x ≡ true → q (f x) ≡ true)
      → any p t ≡ true
      → any q (patch_all p f t) ≡ true
  any-patch_all p q f [] keeps h = cc
  any-patch_all p q f (x ∷ t) keeps h = elim (Bool-cases (p x)) [
    | inl here ↦ rw (here, keeps x here)
    | inr other ↦ rw other (ground (arith, any-patch_all p q f t keeps (rw other at h)))
  ]

  pub find-fits : (p : Row → Bool) (t : List Row) (r : Row) → find p t ≡ some r → p r ≡ true
  find-fits p [] r h = cc
  find-fits p (x ∷ t) r h = elim (Bool-cases (p x)) [
    | inl here ↦ let same : some x ≡ some r = rw here at h in ground arith
    | inr other ↦ find-fits p t r (rw other at h)
  ]

  pub find-replace_first :
      (p : Row → Bool) (r u : Row) (t : List Row)
      → p r ≡ true
      → find p t ≡ some u
      → find p (replace_first p r t) ≡ some r
  find-replace_first p r u [] fits h = cc
  find-replace_first p r u (x ∷ t) fits h = elim (Bool-cases (p x)) [
    | inl here ↦ rw here (rw fits refl)
    | inr other ↦ rw other (rw other (find-replace_first p r u t fits (rw other at h)))
  ]
