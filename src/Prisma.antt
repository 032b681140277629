-- ===== src/Prisma.antt =====
-- The database client (`PrismaService`), a library: for each table a delegate with the calls that
-- the services make. The calls are parameters; `IsDelegate` states their documented behaviour on a
-- table whose unique constraints are `clash`. A table is the list of its rows, oldest first.
pub mod Errors
pub mod Tables
use schematica_api.Common.{
  ℕ, Bool, true, false, ◌≡◌, ◌||◌, refl, sym, subst, fun_ext, Option, none, some, List, [], ◌∷◌,
  ◌++◌, length, any, keep, find, not, nat_eq, if◌then◌else◌,
}
use Errors.{
  Outcome, done, failed, unique_constraint_failed, foreign_key_constraint_failed, record_not_found,
}

pub record Delegate (Row : Type 0) : Type 0 where
  -- findUnique, findFirst and their OrThrow forms
  pub find_first : (Row → Bool) → List Row → Option Row
  pub find_many : (Row → Bool) → List Row → List Row
  pub count : (Row → Bool) → List Row → ℕ
  -- whether the rows that the new row refers to exist, and the row
  pub create : Bool → Row → List Row → Outcome (List Row)
  -- whether the rows that the changed rows refer to exist, the test, and the change
  pub update : Bool → (Row → Bool) → (Row → Row) → List Row → Outcome (List Row × Row)
  pub update_many : Bool → (Row → Bool) → (Row → Row) → List Row → Outcome (List Row × ℕ)
  pub delete : (Row → Bool) → List Row → Outcome (List Row × Row)
  pub delete_many : (Row → Bool) → List Row → List Row × ℕ

module _ {Row : Type 0} where
  -- The first row that satisfies the test, replaced or removed.
  abbrev pub replace_first : (Row → Bool) → Row → List Row → List Row
  replace_first p r [] = []
  replace_first p r (x ∷ xs) = if p x then r ∷ xs else x ∷ replace_first p r xs

  abbrev pub remove_first : (Row → Bool) → List Row → List Row
  remove_first p [] = []
  remove_first p (x ∷ xs) = if p x then xs else x ∷ remove_first p xs

  abbrev pub patch_all : (Row → Bool) → (Row → Row) → List Row → List Row
  patch_all p f [] = []
  patch_all p f (x ∷ xs) = (if p x then f x else x) ∷ patch_all p f xs

  module _ (clash : Row → Row → Bool) where
    -- Two rows violate a unique constraint.
    abbrev pub has_clash : List Row → Bool
    has_clash [] = false
    has_clash (x ∷ xs) = any (clash x) xs || has_clash xs

    abbrev pub created : Bool → Row → List Row → Outcome (List Row)
    created linked r t =
        if linked
        then if any (clash r) t then failed unique_constraint_failed else done (t ++ r ∷ [])
        else failed foreign_key_constraint_failed

    abbrev pub updated : Bool → (Row → Bool) → (Row → Row) → List Row → Outcome (List Row × Row)
    updated linked p f t = elim (find p t) [
      | none ↦ failed record_not_found
      | some r ↦
          if any (clash (f r)) (remove_first p t)
          then failed unique_constraint_failed
          else if linked
          then done (replace_first p (f r) t, f r)
          else failed foreign_key_constraint_failed
    ]

    abbrev pub updated_many : Bool → (Row → Bool) → (Row → Row) → List Row → Outcome (List Row × ℕ)
    updated_many linked p f t =
        if has_clash (patch_all p f t)
        then failed unique_constraint_failed
        else if linked || nat_eq (length (keep p t)) 0
        then done (patch_all p f t, length (keep p t))
        else failed foreign_key_constraint_failed

  abbrev pub deleted : (Row → Bool) → List Row → Outcome (List Row × Row)
  deleted p t = elim (find p t) [
    | none ↦ failed record_not_found
    | some r ↦ done (remove_first p t, r)
  ]

  abbrev pub deleted_many : (Row → Bool) → List Row → List Row × ℕ
  deleted_many p t = (keep (λ r. not (p r)) t, length (keep p t))

  pub record IsDelegate (clash : Row → Row → Bool) (d : Delegate Row) : Type 0 where
    pub find_first_law : (p : Row → Bool) (t : List Row) → d.find_first p t ≡ find p t
    pub find_many_law : (p : Row → Bool) (t : List Row) → d.find_many p t ≡ keep p t
    pub count_law : (p : Row → Bool) (t : List Row) → d.count p t ≡ length (keep p t)
    pub create_law :
        (linked : Bool) (r : Row) (t : List Row) → d.create linked r t ≡ created clash linked r t
    pub update_law :
        (linked : Bool) (p : Row → Bool) (f : Row → Row) (t : List Row)
        → d.update linked p f t ≡ updated clash linked p f t
    pub update_many_law :
        (linked : Bool) (p : Row → Bool) (f : Row → Row) (t : List Row)
        → d.update_many linked p f t ≡ updated_many clash linked p f t
    pub delete_law : (p : Row → Bool) (t : List Row) → d.delete p t ≡ deleted p t
    pub delete_many_law : (p : Row → Bool) (t : List Row) → d.delete_many p t ≡ deleted_many p t

  -- A delegate that keeps its table in memory.
  abbrev pub in_memory : (Row → Row → Bool) → Delegate Row
  in_memory clash = record {
    find_first = find;
    find_many = keep;
    count = λ p t. length (keep p t);
    create = created clash;
    update = updated clash;
    update_many = updated_many clash;
    delete = deleted;
    delete_many = deleted_many;
  }

  pub in_memory-IsDelegate : (clash : Row → Row → Bool) → IsDelegate clash (in_memory clash)
  in_memory-IsDelegate clash = record {
    find_first_law = λ p t. refl;
    find_many_law = λ p t. refl;
    count_law = λ p t. refl;
    create_law = λ linked r t. refl;
    update_law = λ linked p f t. refl;
    update_many_law = λ linked p f t. refl;
    delete_law = λ p t. refl;
    delete_many_law = λ p t. refl;
  }

  -- The laws determine the delegate, so that a statement about all delegates follows from the one
  -- about that in memory.
  pub IsDelegate-eq :
      (clash : Row → Row → Bool) (d : Delegate Row) → IsDelegate clash d → d ≡ in_memory clash
  IsDelegate-eq clash d h = λ i. record {
    find_first = λ p t. h.find_first_law p t i;
    find_many = λ p t. h.find_many_law p t i;
    count = λ p t. h.count_law p t i;
    create = λ linked r t. h.create_law linked r t i;
    update = λ linked p f t. h.update_law linked p f t i;
    update_many = λ linked p f t. h.update_many_law linked p f t i;
    delete = λ p t. h.delete_law p t i;
    delete_many = λ p t. h.delete_many_law p t i;
  }
