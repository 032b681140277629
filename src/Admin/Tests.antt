-- ===== src/Admin/Tests.antt =====
-- The deletion of a user on a small state.
use schematica_api.Admin.Users.{remove, remove_try, deleted_user}
use schematica_api.Admin.Users.Removal.{
  IsRemoved, remove-IsRemoved, remove-validate, remove_deleted,
}
use schematica_api.Auth.{JwtPayload, validate}
use schematica_api.Common.{String, ◌==◌, ◌≡◌, ◌≢◌, refl, [], ◌∷◌, eq_iff, arith}
use schematica_api.Database.{memory_client, memory_client-IsPrisma}
use schematica_api.Events.{Done, audit}
use schematica_api.Exceptions.{ok, throw, unauthorized}
use schematica_api.Prisma.Errors.{unexpected}
use schematica_api.Samples.{alice_row, db, root}
use schematica_api.Users.{Bcrypt}

abbrev plain_bcrypt : Bcrypt
plain_bcrypt = record { compare = λ plain hashed. plain == hashed; hash = λ plain. plain }

abbrev deleted_row : schematica_api.Entities.User
deleted_row = deleted_user "T5" "5" alice_row alice_row

abbrev after : Done (Unit {0})
after = record {
  db = record db { users = deleted_row ∷ []; grants = record (db.grants) { user_accesses = [] } };
  events = audit root "USER_DELETED" "u1" ∷ [];
  value = tt;
}

removed : remove memory_client plain_bcrypt db "u1" root "T5" "5" ≡ ok after
unfolding remove remove_try
removed = refl

remove-IsRemoved_example : ◌≢◌ {A = String} "u1" "u3" × IsRemoved "u1" after.db
remove-IsRemoved_example =
    remove-IsRemoved memory_client memory_client-IsPrisma plain_bcrypt db "u1" root "T5" "5" after
      removed

abbrev token : JwtPayload
token = record { sub = "u1"; username = "alice"; role = alice_row.role; token_version = 2 }

remove-validate_example :
    validate memory_client after.db token
    ≡ throw (unauthorized "User not found or has been deactivated")
remove-validate_example =
    remove-validate memory_client memory_client-IsPrisma plain_bcrypt db root "T5" "5" after token
      removed

u1_ne_u3 : ◌≢◌ {A = String} "u1" "u3"
u1_ne_u3 = ground (arith, eq_iff "u1" "u3")

remove_deleted_example :
    remove memory_client plain_bcrypt after.db "u1" root "T6" "6" ≡ throw unexpected
remove_deleted_example =
    remove_deleted memory_client memory_client-IsPrisma plain_bcrypt after.db "u1" root "T6" "6"
      deleted_row refl refl u1_ne_u3
