-- ===== src/Users/Sanitized.antt =====
-- users/dto/sanitized-user.dto.ts: what others see of a user.
use schematica_api.Common.{String, Bool, true, false, Option, none, some}
use schematica_api.Database.{Database, PrismaService}
use schematica_api.Entities.{User}
use schematica_api.Users.{has_user_id}

pub record SanitizedUserDto : Type 0 where
  pub id : String
  pub username : String
  pub profile_image : Option String
  pub is_deleted : Bool

-- `!!user.deletedAt`
abbrev pub is_dead : Option String → Bool
is_dead none = false
is_dead (some at) = true

-- `SanitizedUserDto.from`
unfoldable pub sanitized : User → SanitizedUserDto
sanitized user = record {
  id = user.id;
  username = user.username;
  profile_image = user.profile_image;
  is_deleted = is_dead user.deleted_at;
}

-- `include: { actor: true }`, and `actor ? SanitizedUserDto.from(actor) : null`
unfoldable pub included : PrismaService → Database → Option String → Option SanitizedUserDto
included client db none = none
included client db (some user_id) = elim (client.user.find_first (has_user_id user_id) db.users) [
  | none ↦ none
  | some user ↦ some (sanitized user)
]
