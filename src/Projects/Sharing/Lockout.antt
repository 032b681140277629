-- ===== src/Projects/Sharing/Lockout.antt =====
-- Nobody locks themselves out with `updateAccess`.
use schematica_api.Access.Rules.{MayOwn}
use schematica_api.Common.{
  String, Bool, true, not, ◌≡◌, inl, inr, refl, ap, subst, eq_iff, arith, some, List, [], ◌∷◌, ◌++◌,
  map, any, find, keep, In, In-append_left, In-append_right, any-In_sound, ◌==◌, Bool-cases,
  Option-cases,
}
use schematica_api.Database.{Database, PrismaService, IsPrisma, memory_client, for_every_client}
use schematica_api.Entities.{Project, owner, project_clash}
use schematica_api.Events.{Done, audit}
use schematica_api.Exceptions.{ok}
use schematica_api.Prisma.{replace_first, remove_first, updated}
use schematica_api.Prisma.Errors.{Try, fine, attempt, Try-cases}
use schematica_api.Prisma.Tables.{find-fits}
use schematica_api.Projects.{has_project_id, is_current}
use schematica_api.Projects.Sharing.{
  UpdateAccessDto, includes, still_owner, users_as, teams_as, check_new, check_connected, shared,
  share, update_access,
}
use schematica_api.User.{UserDto, admin, role_eq, role_eq_iff, team_ids}

-- The row that replaces the first match is in the list.
In-replace_first :
    (p : Project → Bool) (r u : Project) (t : List Project)
    → find p t ≡ some u
    → In r (replace_first p r t)
In-replace_first p r u [] h = cc
In-replace_first p r u (x ∷ t) h = elim (Bool-cases (p x)) [
  | inl here ↦ rw here (inl refl)
  | inr other ↦ rw other (inr (In-replace_first p r u t (rw other at h)))
]

module _ (db : Database) (project_id : String) (dto : UpdateAccessDto) (user : UserDto)
    (now : String) where
  abbrev touched : Project → Project
  touched p = record p { updated_by_id = user.id; updated_at = now }

  abbrev user_check : Try (Unit {0})
  user_check = check_new (dto.owner_user_ids ++ dto.viewer_user_ids) (map (λ u. u.id) db.users)

  abbrev team_check : Try (Unit {0})
  team_check = check_new (dto.owner_team_ids ++ dto.viewer_team_ids) (map (λ t. t.id) db.teams)

  abbrev denied_check : Try (Unit {0})
  denied_check = check_connected dto.denied_user_ids (map (λ u. u.id) db.users)

  abbrev write : Try (List Project × Project)
  write = attempt (
      updated project_clash (any (λ u. u.id == user.id) db.users) (has_project_id project_id)
        touched (db.grants).projects)

  abbrev shared_done : List Project × Project → Done Project
  shared_done written = record {
    db = record db { grants = record (shared db project_id dto) { projects = written.0 } };
    events = audit user "PROJECT_ACCESS_UPDATED" project_id ∷ [];
    value = written.1;
  }

  -- A call that succeeds has made its write, and its answer is the one above.
  share-fine :
      (d : Done Project)
      → share memory_client db project_id dto user now ≡ fine d
      → (written : List Project × Project) × (write ≡ fine written) × (shared_done written ≡ d)
  unfolding share
  share-fine d h = elim (Option-cases (find (has_project_id project_id) (db.grants).projects)) [
    | inl a ↦ ground (arith, a)
    | inr (p, a) ↦
        elim (Option-cases
          (find (is_current project_id dto.last_known_updated_at) (db.grants).projects)) [
            | inl b ↦ ground (arith, a, b)
            | inr (current, b) ↦ elim (Try-cases user_check) [
              | inl (e, c) ↦ ground (arith, a, b, c)
              | inr (u, c) ↦ elim (Try-cases team_check) [
                | inl (e, c') ↦ ground (arith, a, b, c, c')
                | inr (v, c') ↦ elim (Try-cases denied_check) [
                  | inl (e, c'') ↦ ground (arith, a, b, c, c', c'')
                  | inr (w, c'') ↦ elim (Try-cases write) [
                    | inl (e, g) ↦ ground (arith, a, b, c, c', c'', g)
                    | inr (written, g) ↦
                        let same : fine (shared_done written) ≡ fine d =
                          ground (arith, a, b, c, c', c'', g, h) in
                        (written, g, cc)
                  ]
                ]
              ]
            ]
          ]
  ]

  -- The project is still there after the write.
  written-Exists :
      (written : List Project × Project)
      → write ≡ fine written
      → (p : Project) × In p written.0 × (p.id ≡ project_id)
  written-Exists written wrote =
      elim (Option-cases (find (has_project_id project_id) (db.grants).projects)) [
        | inl a ↦ ground (arith, a)
        | inr (p, a) ↦
            elim (Bool-cases (
              any (project_clash (touched p))
                (remove_first (has_project_id project_id) (db.grants).projects))) [
                  | inl clash ↦ ground (arith, a, clash)
                  | inr clear ↦ elim (Bool-cases (any (λ u. u.id == user.id) db.users)) [
                    | inr unknown ↦ ground (arith, a, clear, unknown, wrote)
                    | inl known ↦
                        let same : ◌≡◌ {A = Try (List Project × Project)}
                            (fine (
                              replace_first (has_project_id project_id) (touched p)
                                  (db.grants).projects,
                              touched p,
                            ))
                            (fine written) =
                          ground (arith, a, clear, known, wrote) in
                        let same_rows : replace_first (has_project_id project_id) (touched p)
                              (db.grants).projects
                            ≡ written.0 =
                          cc in
                        (
                          touched p,
                          rw (← same_rows) (
                              In-replace_first (has_project_id project_id) (touched p) p
                                (db.grants).projects a),
                          ground (
                            arith,
                            find-fits (has_project_id project_id) (db.grants).projects p a,
                            eq_iff p.id project_id,
                          ),
                        )
                  ]
                ]
      ]

In-map : {A B : Type 0} (f : A → B) (a : A) (xs : List A) → In a xs → In (f a) (map f xs)
In-map f a [] i = elim i [ ]
In-map f a (x ∷ xs) (inl same) = inl (ap f same)
In-map f a (x ∷ xs) (inr i) = inr (In-map f a xs i)

includes-In : (ids : List String) (id : String) → includes ids id ≡ true → In id ids
includes-In ids id h =
    let (i, there, same) = any-In_sound (λ i. i == id) ids h in
    subst (λ x. In x ids) ((eq_iff i id).0 same) there

-- Whoever names themselves, or a team of theirs, as owner has an owner's access among the new rows.
still_owner-MayOwn :
    (db : Database) (project_id : String) (dto : UpdateAccessDto) (user : UserDto)
    (projects : List Project)
    → still_owner dto user ≡ true
    → (p : Project) × In p projects × (p.id ≡ project_id)
    → MayOwn (record (shared db project_id dto) { projects = projects }) user project_id
still_owner-MayOwn db project_id dto user projects keeps exists =
    elim (Bool-cases (includes dto.owner_user_ids user.id)) [
      | inl by_name ↦ inr (
        exists,
        inl (
          record { user_id = user.id; project_id = project_id; type = owner },
          In-append_right _ (keep (λ a. not (a.project_id == project_id)) (db.grants).user_accesses)
              _
              (In-append_left _ (users_as project_id owner dto.owner_user_ids) _ (
                In-map _ user.id dto.owner_user_ids
                  (includes-In dto.owner_user_ids user.id by_name))),
          (refl, refl, refl),
        ),
      )
      | inr not_by_name ↦
          let by_team : any (includes (team_ids user)) dto.owner_team_ids ≡ true =
            ground (arith, not_by_name, keeps) in
          let (team, there, mine) =
            any-In_sound (includes (team_ids user)) dto.owner_team_ids by_team in
          inr (
            exists,
            inr (
              record { team_id = team; project_id = project_id; type = owner },
              In-append_right _
                  (keep (λ a. not (a.project_id == project_id)) (db.grants).team_accesses) _
                  (In-append_left _ (teams_as project_id owner dto.owner_team_ids) _
                    (In-map _ team dto.owner_team_ids there)),
              (refl, includes-In (team_ids user) team mine, refl),
            ),
          )
    ]

kept_in_memory :
    (db : Database) (project_id : String) (dto : UpdateAccessDto) (user : UserDto) (now : String)
    (d : Done Project)
    → update_access memory_client db project_id dto user now ≡ ok d
    → MayOwn (d.db).grants user project_id
unfolding update_access
kept_in_memory db project_id dto user now d h = elim (Bool-cases (role_eq user.role admin)) [
  | inl is_admin ↦ inl ((role_eq_iff user.role admin).0 is_admin)
  | inr plain ↦ elim (Bool-cases (still_owner dto user)) [
    | inr drops ↦ ground (arith, plain, drops)
    | inl keeps ↦ elim (Try-cases (share memory_client db project_id dto user now)) [
      | inl (e, failed) ↦ ground (arith, plain, keeps, failed)
      | inr (done, succeeded) ↦
          let same : ok done ≡ ok d = ground (arith, plain, keeps, succeeded, h) in
          let same_done : done ≡ d = cc in
          let (written, wrote, whole) = share-fine db project_id dto user now done succeeded in
          rw (← same_done, ← whole)
            (still_owner-MayOwn db project_id dto user written.0 keeps
              (written-Exists db project_id dto user now written wrote))
    ]
  ]
]

-- After an update of the access that succeeds, the user who made it may still own the project.
pub update_access-MayOwn :
    (client : PrismaService)
    → IsPrisma client
    → (db : Database) (project_id : String) (dto : UpdateAccessDto) (user : UserDto) (now : String)
      (d : Done Project)
    → update_access client db project_id dto user now ≡ ok d
    → MayOwn (d.db).grants user project_id
update_access-MayOwn client laws db project_id dto user now d =
    for_every_client
      (λ c.
        update_access c db project_id dto user now ≡ ok d → MayOwn (d.db).grants user project_id)
      client laws (kept_in_memory db project_id dto user now d)
