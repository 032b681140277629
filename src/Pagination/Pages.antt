-- ===== src/Pagination/Pages.antt =====
-- The pages of a listing, put together, are the listing.
use native.Mathlib.Nat.{div-add-mod', mod-lt, zero-mul, suc-mul, mul-le-mul_right}
use schematica_api.Common.{
  ℕ, zero, suc, ◌+◌, ◌-◌, ◌*◌, ◌/◌, ◌≤◌, ◌<◌, ◌≡◌, inl, inr, refl, sym, ap, subst, ◌∙◌, arith, Bool,
  true, List, [], ◌∷◌, ◌++◌, length, map, keep, take, drop, nat_eq, Bool-cases,
}
use schematica_api.Pagination.{skip, OrderBy, IsOrderBy, last_page, paginated}

take_nil : {Row : Type 0} (n : ℕ) → take {A = Row} n [] ≡ []
take_nil zero = refl
take_nil (suc n) = refl

module _ {Row A : Type 0} (f : Row → A) where
  take-map_append :
      (m k : ℕ) (xs : List Row)
      → map f (take m xs) ++ map f (take k (drop m xs)) ≡ map f (take (m + k) xs)
  take-map_append zero k xs = rw (zero_left k) refl
    where
      zero_left : (n : ℕ) → 0 + n ≡ n
      zero_left n = omega arith
  take-map_append (suc m) k [] = rw (take_nil k, take_nil (suc m + k)) refl
  take-map_append (suc m) k (x ∷ xs) =
      ap (λ t. f x ∷ t) (take-map_append m k xs) ∙ ap (λ n. map f (take n (x ∷ xs))) (suc_left m k)
    where
      suc_left : (a b : ℕ) → suc (a + b) ≡ suc a + b
      suc_left a b = omega arith

take_all : {Row : Type 0} (n : ℕ) (xs : List Row) → length xs ≤ n → take n xs ≡ xs
take_all zero [] h = refl
take_all zero (x ∷ xs) h = absurd (omega arith)
take_all (suc n) [] h = refl
take_all (suc n) (x ∷ xs) h = ap (λ t. x ∷ t) (take_all n xs (omega arith))

drop_all : {Row : Type 0} (n : ℕ) (xs : List Row) → length xs ≤ n → drop n xs ≡ []
drop_all zero [] h = refl
drop_all zero (x ∷ xs) h = absurd (omega arith)
drop_all (suc n) [] h = refl
drop_all (suc n) (x ∷ xs) h = drop_all n xs (omega arith)

length-drop : {Row : Type 0} (n : ℕ) (xs : List Row) → length (drop n xs) ≡ length xs - n
length-drop zero xs = omega arith
length-drop (suc n) [] = omega arith
length-drop (suc n) (x ∷ xs) = length-drop n xs ∙ omega arith

length-page :
    {Row A : Type 0} (f : Row → A) (n : ℕ) (xs : List Row) → length (map f (take n xs)) ≤ n
length-page f zero xs = omega arith
length-page f (suc n) [] = omega arith
length-page f (suc n) (x ∷ xs) = ground (arith, length-page f n xs)

page-inhabited :
    {Row A : Type 0} (f : Row → A) (n : ℕ) (xs : List Row)
    → 0 < n
    → 0 < length xs
    → 0 < length (map f (take n xs))
page-inhabited f zero xs h k = absurd (omega arith)
page-inhabited f (suc n) [] h k = absurd (omega arith)
page-inhabited f (suc n) (x ∷ xs) h k = omega arith

module _ (total limit : ℕ) (positive : 1 ≤ limit) where
  abbrev pages : ℕ
  pages = (total + (limit - 1)) / limit

  no_pages : pages ≡ 0 → total ≡ 0
  no_pages none =
      let whole = div-add-mod' (total + (limit - 1)) limit in
      let rest = mod-lt (total + (limit - 1)) {m = limit} (omega arith) in
      let nothing : pages * limit ≡ 0 = ap (λ n. n * limit) none ∙ zero-mul limit in omega arith

  last_page_pages : 0 < total → last_page total limit ≡ pages
  unfolding last_page
  last_page_pages h = elim (Bool-cases (nat_eq pages 0)) [
    | inl none ↦ let empty = no_pages (ground arith) in absurd (omega arith)
    | inr some ↦ rw some refl
  ]

  last_page_none : total ≡ 0 → 1 ≤ last_page total limit
  unfolding last_page
  last_page_none h = elim (Bool-cases (nat_eq pages 0)) [
    | inl none ↦ rw none (omega arith)
    | inr some ↦ rw some (ground arith)
  ]

  -- The last page ends behind the rows.
  last_page_enough : total ≤ last_page total limit * limit
  last_page_enough =
      let whole = div-add-mod' (total + (limit - 1)) limit in
      let rest = mod-lt (total + (limit - 1)) {m = limit} (omega arith) in
      elim (Bool-cases (nat_eq total 0)) [
        | inl none ↦ ground arith
        | inr some ↦ rw (last_page_pages (ground arith)) (omega arith)
      ]

  -- The page before it does not.
  last_page_needed : 0 < total → (k : ℕ) → k < last_page total limit → k * limit < total
  last_page_needed h k early =
      let whole = div-add-mod' (total + (limit - 1)) limit in
      let enough = mul-le-mul_right limit (subst (λ n. suc k ≤ n) (last_page_pages h) early) in
      let next = suc-mul k limit in omega arith

-- The items of the pages from 1 to n.
abbrev pub all_pages : {A : Type 0} → (ℕ → List A) → ℕ → List A
all_pages page zero = []
all_pages page (suc n) = all_pages page n ++ page (suc n)

-- A listing with a limit: `items` on a page, of the ordered rows as their DTOs, `total` of them. The
-- pages up to the last one together are all of them, in their order; no page has more than the limit;
-- up to the last one none is empty, where there are any rows; and behind the last one all are empty.
abbrev pub IsPaged : {A : Type 0} → (ℕ → List A) → List A → ℕ → ℕ → Type 0
IsPaged items rows total limit =
    (all_pages items (last_page total limit) ≡ rows)
    × ((page : ℕ) → length (items page) ≤ limit)
    × ((page : ℕ) → 0 < total → 1 ≤ page → page ≤ last_page total limit → 0 < length (items page))
    × ((page : ℕ) → last_page total limit < page → items page ≡ [])

le_pred : (m n : ℕ) → m < n → m ≤ n - 1
le_pred m n h = omega arith

module _ {Row A : Type 0} (f : Row → A) (xs : List Row) (limit : ℕ) where
  abbrev page_items : ℕ → List A
  page_items page = map f (take limit (drop ((page - 1) * limit) xs))

  all_pages-take : (n : ℕ) → all_pages page_items n ≡ map f (take (n * limit) xs)
  all_pages-take zero = rw (zero-mul limit) refl
  all_pages-take (suc n) =
      rw (all_pages-take n, suc-mul n limit, before n) (take-map_append f (n * limit) limit xs)
    where
      before : (m : ℕ) → suc m - 1 ≡ m
      before m = omega arith

  page_items-IsPaged : 1 ≤ limit → IsPaged page_items (map f xs) (length xs) limit
  page_items-IsPaged positive = (
    all_pages-take (last_page (length xs) limit)
        ∙ ap (map f) (take_all _ xs (last_page_enough (length xs) limit positive)),
    λ page. length-page f limit (drop ((page - 1) * limit) xs),
    λ page some first early.
        let needed = last_page_needed (length xs) limit positive some (page - 1) (omega arith) in
        let left = length-drop ((page - 1) * limit) xs in
        page-inhabited f limit (drop ((page - 1) * limit) xs) (omega arith) (omega arith),
    λ page late.
        let behind = mul-le-mul_right limit (le_pred (last_page (length xs) limit) page late) in
        let enough = last_page_enough (length xs) limit positive in
        rw (drop_all ((page - 1) * limit) xs (omega arith), take_nil {Row = Row} limit) refl,
  )

keep-true : {Row : Type 0} (xs : List Row) → keep (λ _. true) xs ≡ xs
keep-true [] = refl
keep-true (x ∷ xs) = ap (λ t. x ∷ t) (keep-true xs)

-- A listing of the rows of a table that satisfy `fits`.
pub paginated-IsPaged :
    {Row A : Type 0} (order_by : OrderBy) (f : Row → A) (before : Row → Row → Bool)
    (fits : Row → Bool) (table : List Row) (limit : ℕ)
    → IsOrderBy order_by
    → 1 ≤ limit
    → IsPaged
        (λ page.
          (paginated f
            (order_by Row before (keep fits table))
            (length (keep fits table))
            (record { limit = limit; page = page })).items)
        (map f (order_by Row before (keep fits table)))
        (length (keep fits table))
        limit
unfolding paginated skip
paginated-IsPaged {Row = Row} order_by f before fits table limit same positive =
    let count : length (order_by Row before (keep fits table)) ≡ length (keep fits table) =
      ap length (sym (keep-true (order_by Row before (keep fits table))))
      ∙ same Row before (keep fits table) (λ _. true)
      ∙ ap length (keep-true (keep fits table)) in
    subst
      (λ n.
        IsPaged (page_items f (order_by Row before (keep fits table)) limit)
          (map f (order_by Row before (keep fits table))) n limit)
      count (page_items-IsPaged f (order_by Row before (keep fits table)) limit positive)
