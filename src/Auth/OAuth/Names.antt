-- ===== src/Auth/OAuth/Names.antt =====
-- The search for a name that nobody has ends, and its result is free.
use schematica_api.Auth.OAuth.{
  has_username, numbered, suffixed, try_suffixes, count_up, find_available_username,
}
use schematica_api.Auth.Suffixes.{username_suffixes}
use schematica_api.Common.{
  String, ℕ, zero, suc, ◌+◌, ◌≤◌, ◌<◌, Bool, not, ◌≡◌, ◌≢◌, inl, inr, refl, arith, none, some, List,
  [], ◌∷◌, length, keep, find, eq_iff, Bool-cases, Option-cases, print_nat-injective, append-cancel,
  print_nat, template, sym, ◌∙◌,
}
use schematica_api.Database.{Database, PrismaService, IsPrisma, memory_client, for_every_client}
use schematica_api.Entities.{User}
use text.Mathlib.TextLemmas.{append-nil}

numbered-injective : (base : String) (m n : ℕ) → numbered base m ≡ numbered base n → m ≡ n
numbered-injective base m n e = print_nat-injective m n (
    sym (append-nil (print_nat m))
    ∙ append-cancel base (template (print_nat m ∷ [])) (template (print_nat n ∷ [])) e
    ∙ append-nil (print_nat n))

-- Some name is found and nobody has it.
abbrev pub IsFound : PrismaService → Database → String → ℕ → Type 0
IsFound client db base start =
    (name : String) × (find_available_username client db base start ≡ some name)
    × (find (has_username name) db.users ≡ none)

module _ (base : String) where
  -- The database without those who have a name.
  abbrev without : String → Database → Database
  without name db = record db { users = keep (λ u. not (has_username name u)) db.users }

  find-without :
      (name other : String) (t : List User)
      → other ≢ name
      → find (has_username other) (keep (λ u. not (has_username name u)) t)
        ≡ find (has_username other) t
  find-without name other [] ne = refl
  find-without name other (u ∷ t) ne =
      ground (arith, find-without name other t ne, eq_iff u.username name, eq_iff u.username other)

  -- The names of later rounds do not meet those who have an earlier one.
  count_up-without :
      (fuel counter earlier : ℕ) (db : Database)
      → earlier < counter
      → count_up memory_client (without (numbered base earlier) db) base fuel counter
        ≡ count_up memory_client db base fuel counter
  unfolding count_up
  count_up-without zero counter earlier db h = refl
  count_up-without (suc fuel) counter earlier db h =
      let ne : numbered base counter ≢ numbered base earlier =
        λ e. ground (arith, numbered-injective base counter earlier e) in
      let same = find-without (numbered base earlier) (numbered base counter) db.users ne in
      elim (Option-cases (find (has_username (numbered base counter)) db.users)) [
        | inl free ↦ rw (count_up, same, free) refl
        | inr (u, taken) ↦
            rw (count_up, same, taken)
              (count_up-without fuel (counter + 1) earlier db (omega arith))
      ]

  length-keep : (p : User → Bool) (t : List User) → length (keep p t) ≤ length t
  length-keep p [] = omega arith
  length-keep p (x ∷ t) = ground (arith, length-keep p t)

  length-without :
      (name : String) (t : List User) (u : User)
      → find (has_username name) t ≡ some u
      → length (keep (λ u. not (has_username name u)) t) < length t
  length-without name [] u h = cc
  length-without name (x ∷ t) u h = elim (Bool-cases (has_username name x)) [
    | inl here ↦ rw here (ground (arith, length-keep (λ u. not (has_username name u)) t))
    | inr other ↦ rw other (ground (arith, length-without name t u (rw other at h)))
  ]

  -- Each round that fails is about a user whom no later round meets.
  count_up_total :
      (fuel counter : ℕ) (db : Database)
      → length db.users < fuel
      → (name : String) × (count_up memory_client db base fuel counter ≡ some name)
  unfolding count_up
  count_up_total zero counter db h = absurd (omega arith)
  count_up_total (suc fuel) counter db h =
      elim (Option-cases (find (has_username (numbered base counter)) db.users)) [
        | inl free ↦ (numbered base counter, rw (free, count_up) refl)
        | inr (u, taken) ↦
            let shorter = length-without (numbered base counter) db.users u taken in
            let (name, e) =
              count_up_total fuel (counter + 1) (without (numbered base counter) db)
                (omega arith) in
            (
              name,
              rw (taken, count_up)
                  (sym (count_up-without fuel (counter + 1) counter db (omega arith)) ∙ e),
            )
      ]

  count_up-free :
      (fuel counter : ℕ) (db : Database) (name : String)
      → count_up memory_client db base fuel counter ≡ some name
      → find (has_username name) db.users ≡ none
  unfolding count_up
  count_up-free zero counter db name h = cc
  count_up-free (suc fuel) counter db name h =
      elim (Option-cases (find (has_username (numbered base counter)) db.users)) [
        | inl free ↦
            let same : some (numbered base counter) ≡ some name = rw (free, count_up) at h in
            let same_name : numbered base counter ≡ name = cc in rw (← same_name) free
        | inr (u, taken) ↦ count_up-free fuel (counter + 1) db name (rw (taken, count_up) at h)
      ]

  try_suffixes-free :
      (left start i : ℕ) (db : Database) (name : String)
      → try_suffixes memory_client db base start i left ≡ some name
      → find (has_username name) db.users ≡ none
  unfolding try_suffixes
  try_suffixes-free zero start i db name h = cc
  try_suffixes-free (suc left) start i db name h =
      elim (Option-cases (find (has_username (suffixed base (start + i))) db.users)) [
        | inl free ↦
            let same : some (suffixed base (start + i)) ≡ some name =
              rw (free, try_suffixes) at h in
            let same_name : suffixed base (start + i) ≡ name = cc in rw (← same_name) free
        | inr (u, taken) ↦
            try_suffixes-free left start (i + 1) db name (rw (taken, try_suffixes) at h)
      ]

  IsFound-in_memory : (db : Database) (start : ℕ) → IsFound memory_client db base start
  unfolding find_available_username
  IsFound-in_memory db start = elim (Option-cases (find (has_username base) db.users)) [
    | inl free ↦ (base, rw (free, find_available_username) refl, free)
    | inr (u, taken) ↦
        elim (Option-cases
          (try_suffixes memory_client db base start 0 (length username_suffixes))) [
            | inr (name, e) ↦ (
              name,
              rw (taken, find_available_username, e) refl,
              try_suffixes-free (length username_suffixes) start 0 db name e,
            )
            | inl e ↦
                let (name, found) = count_up_total (suc (length db.users)) 1 db (omega arith) in
                (
                  name,
                  rw (taken, find_available_username, e) found,
                  count_up-free (suc (length db.users)) 1 db name found,
                )
          ]
  ]

-- The search for a name ends for every database, wanted name and start: it answers a name, and no
-- user has that name.
pub find_available_username_total :
    (client : PrismaService)
    → IsPrisma client
    → (db : Database) (base : String) (start : ℕ) → IsFound client db base start
find_available_username_total client laws db base start =
    for_every_client (λ c. IsFound c db base start) client laws (IsFound-in_memory base db start)
