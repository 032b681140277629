-- ===== src/Audit/Retention.antt =====
-- Which records the cleanup job keeps.
use schematica_api.Audit.{is_disabled, handle_log_cleanup}
use schematica_api.Common.{
  ℕ, ◌≤◌, Bool, true, false, not, ◌≡◌, ◌↔◌, inl, inr, refl, arith, List, [], ◌∷◌, keep, In, ltb,
  Integer, Bool-cases,
}
use schematica_api.Database.{Database, PrismaService, IsPrisma, memory_client, for_every_client}
use schematica_api.Entities.{AuditLog, Changelog}

In-keep :
    {A : Type 0} (p : A → Bool) (a : A) (xs : List A) → In a (keep p xs) ↔ (In a xs × (p a ≡ true))
In-keep {A = A} p a xs = (sound xs, λ h. complete xs h.0 h.1)
  where
    sound : (ys : List A) → In a (keep p ys) → In a ys × (p a ≡ true)
    sound [] h = elim h [ ]
    sound (y ∷ ys) h = elim (Bool-cases (p y)) [
      | inl fits ↦ elim (rw fits at h) [
        | inl same ↦ (inl same, rw same fits)
        | inr later ↦ let (i, e) = sound ys later in (inr i, e)
      ]
      | inr other ↦ let (i, e) = sound ys (rw other at h) in (inr i, e)
    ]

    complete : (ys : List A) → In a ys → p a ≡ true → In a (keep p ys)
    complete [] h e = elim h [ ]
    complete (y ∷ ys) (inl same) e = rw (← same, e) (inl refl)
    complete (y ∷ ys) (inr later) e = elim (Bool-cases (p y)) [
      | inl fits ↦ rw fits (inr (complete ys later e))
      | inr other ↦ rw other (complete ys later e)
    ]

-- The job keeps the records from the cutoff on and no other, and every other table.
abbrev pub IsRetained : PrismaService → (ℕ → ℕ → ℕ) → Integer → ℕ → Database → Type 0
IsRetained client days_before days now db =
    let db' = handle_log_cleanup client days_before days now db in
    let cutoff = days_before days.magnitude now in
    ((l : AuditLog) → In l db'.audit_logs ↔ (In l db.audit_logs × (cutoff ≤ l.created_at)))
    × ((l : Changelog) → In l db'.changelogs ↔ (In l db.changelogs × (cutoff ≤ l.created_at)))
    × (record db { audit_logs = db'.audit_logs; changelogs = db'.changelogs } ≡ db')

not_before : (t cutoff : ℕ) → (not (ltb t cutoff) ≡ true) ↔ (cutoff ≤ t)
not_before t cutoff = ground arith

In-kept :
    {A : Type 0} (time : A → ℕ) (cutoff : ℕ) (a : A) (xs : List A)
    → In a (keep (λ r. not (ltb (time r) cutoff)) xs) ↔ (In a xs × (cutoff ≤ time a))
In-kept time cutoff a xs =
    let (sound, complete) = In-keep (λ r. not (ltb (time r) cutoff)) a xs in
    (
      λ i. let (there, late) = sound i in (there, (not_before (time a) cutoff).0 late),
      λ h. complete (h.0, (not_before (time a) cutoff).1 h.1),
    )

IsRetained-in_memory :
    (days_before : ℕ → ℕ → ℕ) (days : Integer) (now : ℕ) (db : Database)
    → is_disabled days ≡ false
    → IsRetained memory_client days_before days now db
unfolding handle_log_cleanup
IsRetained-in_memory days_before days now db enabled =
    rw (handle_log_cleanup, enabled)
      (
        λ l.
            In-kept (λ (r : AuditLog). r.created_at) (days_before days.magnitude now) l
              db.audit_logs,
        λ l.
            In-kept (λ (r : Changelog). r.created_at) (days_before days.magnitude now) l
              db.changelogs,
        refl,
      )

-- Where the retention is a positive number of days, the cleanup job keeps the records of the audit
-- log and of the changelog that are not older than the date that lies so many days back, removes
-- all others, and changes no other table.
pub handle_log_cleanup-IsRetained :
    (client : PrismaService)
    → IsPrisma client
    → (days_before : ℕ → ℕ → ℕ) (days : Integer) (now : ℕ) (db : Database)
    → is_disabled days ≡ false
    → IsRetained client days_before days now db
handle_log_cleanup-IsRetained client laws days_before days now db enabled =
    for_every_client (λ c. IsRetained c days_before days now db) client laws
      (IsRetained-in_memory days_before days now db enabled)
