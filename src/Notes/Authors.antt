-- ===== src/Notes/Authors.antt =====
-- Who may change and delete a note.
use schematica_api.Common.{
  String, ◌≡◌, ◌⊎◌, inl, inr, refl, eq_iff, arith, some, [], ◌∷◌, find, any, ◌==◌, Bool-cases,
  Option-cases, Integer, parse_int,
}
use schematica_api.Database.{Database, PrismaService, IsPrisma, memory_client, for_every_client}
use schematica_api.Entities.{Note, note_clash}
use schematica_api.Events.{Done, note_updated}
use schematica_api.Exceptions.{ok}
use schematica_api.Notes.{has_note_id, edited, write_note, update, remove}
use schematica_api.Prisma.{replace_first, remove_first}
use schematica_api.Prisma.Errors.{fine, Try-cases}
use schematica_api.User.{UserDto, admin, role_eq, role_eq_iff}

-- The number and the note that a request names.
abbrev pub IsNamed : Database → String → Integer → Note → Type 0
IsNamed db note_id_str i n =
    (parse_int note_id_str ≡ some i) × (find (has_note_id i) db.notes ≡ some n)

module _ (db : Database) (note_id_str content : String) (user : UserDto) where
  write_note-fine :
      (d : Done Note) (i : Integer) (n : Note)
      → find (has_note_id i) db.notes ≡ some n
      → write_note memory_client db i content user ≡ fine d
      → (d.db).notes ≡ replace_first (has_note_id i) (edited content n) db.notes
  unfolding write_note
  write_note-fine d i n f h =
      elim (Bool-cases
        (any (note_clash (edited content n)) (remove_first (has_note_id i) db.notes))) [
          | inl clash ↦ ground (arith, f, clash)
          | inr clear ↦ elim (Option-cases (find (λ e. e.id == n.endpoint_id) db.endpoints)) [
            | inl g ↦ ground (arith, f, clear, g)
            | inr (e, g) ↦
                let same : fine (outcome i n e.project_id e.id) ≡ fine d =
                  ground (arith, f, clear, g, h) in
                let same_d : outcome i n e.project_id e.id ≡ d = cc in rw (← same_d) refl
          ]
        ]
    where
      outcome : Integer → Note → String → String → Done Note
      outcome j note project_id endpoint_id = record {
        db = record db { notes = replace_first (has_note_id j) (edited content note) db.notes };
        events = note_updated user (edited content note) project_id endpoint_id ∷ [];
        value = edited content note;
      }

  updated_in_memory :
      (d : Done Note)
      → update memory_client db note_id_str content user ≡ ok d
      → (i : Integer) × (n : Note) × IsNamed db note_id_str i n
        × (n.author_id ≡ user.id)
        × ((d.db).notes ≡ replace_first (has_note_id i) (edited content n) db.notes)
  unfolding update
  updated_in_memory d h = elim (Option-cases (parse_int note_id_str)) [
    | inl p ↦ ground (arith, p)
    | inr (i, p) ↦ elim (Option-cases (find (has_note_id i) db.notes)) [
      | inl f ↦ ground (arith, p, f)
      | inr (n, f) ↦ elim (Bool-cases (n.author_id == user.id)) [
        | inr other ↦ ground (arith, p, f, other)
        | inl mine ↦ elim (Try-cases (write_note memory_client db i content user)) [
          | inl (e, w) ↦ ground (arith, p, f, mine, w)
          | inr (done, w) ↦
              let same : ok done ≡ ok d = ground (arith, p, f, mine, w, h) in
              let same_d : done ≡ d = cc in
              (
                i,
                n,
                (p, f),
                (eq_iff n.author_id user.id).0 mine,
                rw (← same_d) (write_note-fine done i n f w),
              )
        ]
      ]
    ]
  ]

  removed_in_memory :
      (d : Done (Unit {0}))
      → remove memory_client db note_id_str user ≡ ok d
      → (i : Integer) × (n : Note) × IsNamed db note_id_str i n
        × ((user.role ≡ admin) ⊎ (n.author_id ≡ user.id))
        × ((d.db).notes ≡ remove_first (has_note_id i) db.notes)
  unfolding remove
  removed_in_memory d h = elim (Option-cases (parse_int note_id_str)) [
    | inl p ↦ ground (arith, p)
    | inr (i, p) ↦ elim (Option-cases (find (has_note_id i) db.notes)) [
      | inl f ↦ ground (arith, p, f)
      | inr (n, f) ↦ elim (Bool-cases (role_eq user.role admin)) [
        | inl boss ↦ (
          i,
          n,
          (p, f),
          inl ((role_eq_iff user.role admin).0 boss),
          ground (arith, p, f, boss, h),
        )
        | inr plain ↦ elim (Bool-cases (n.author_id == user.id)) [
          | inl mine ↦ (
            i,
            n,
            (p, f),
            inr ((eq_iff n.author_id user.id).0 mine),
            ground (arith, p, f, plain, mine, h),
          )
          | inr other ↦ ground (arith, p, f, plain, other)
        ]
      ]
    ]
  ]

-- An edit that succeeds was made by the author of the note that the request names, and replaces the
-- content of that note only.
pub update_by_author :
    (client : PrismaService)
    → IsPrisma client
    → (db : Database) (note_id_str content : String) (user : UserDto) (d : Done Note)
    → update client db note_id_str content user ≡ ok d
    → (i : Integer) × (n : Note) × IsNamed db note_id_str i n
      × (n.author_id ≡ user.id)
      × ((d.db).notes ≡ replace_first (has_note_id i) (edited content n) db.notes)
update_by_author client laws db note_id_str content user d =
    for_every_client
      (λ c.
        update c db note_id_str content user ≡ ok d
        → (i : Integer) × (n : Note) × IsNamed db note_id_str i n
          × (n.author_id ≡ user.id)
          × ((d.db).notes ≡ replace_first (has_note_id i) (edited content n) db.notes))
      client laws (updated_in_memory db note_id_str content user d)

-- A deletion that succeeds was made by an admin or by the author of the note that the request names,
-- and removes that note only.
pub remove_by_author :
    (client : PrismaService)
    → IsPrisma client
    → (db : Database) (note_id_str : String) (user : UserDto) (d : Done (Unit {0}))
    → remove client db note_id_str user ≡ ok d
    → (i : Integer) × (n : Note) × IsNamed db note_id_str i n
      × ((user.role ≡ admin) ⊎ (n.author_id ≡ user.id))
      × ((d.db).notes ≡ remove_first (has_note_id i) db.notes)
remove_by_author client laws db note_id_str user d =
    for_every_client
      (λ c.
        remove c db note_id_str user ≡ ok d
        → (i : Integer) × (n : Note) × IsNamed db note_id_str i n
          × ((user.role ≡ admin) ⊎ (n.author_id ≡ user.id))
          × ((d.db).notes ≡ remove_first (has_note_id i) db.notes))
      client laws (removed_in_memory db note_id_str "" user d)
