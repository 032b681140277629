-- ===== src/User.antt =====
-- The authenticated user of a request: auth/dto/user.dto.ts (the fields that the services read) and
-- the roles of prisma/schema.prisma.
use schematica_api.Common.{
  String, Bool, true, false, ◌≡◌, ◌↔◌, arith, Option, none, some, List, [], map,
}

pub data Role : Type 0 where
  admin member guest : Role

abbrev pub role_eq : Role → Role → Bool
role_eq admin admin = true
role_eq member member = true
role_eq guest guest = true
role_eq _ _ = false

pub role_eq_iff : (r s : Role) → (role_eq r s ≡ true) ↔ (r ≡ s)
role_eq_iff admin s = ground arith
role_eq_iff member s = ground arith
role_eq_iff guest s = ground arith

pub record TeamDto : Type 0 where
  pub id : String
  pub name : String

pub record UserDto : Type 0 where
  pub id : String
  pub username : String
  pub role : Role
  pub teams : Option (List TeamDto)

-- `user.teams?.map((t) => t.id) ?? []`
abbrev pub team_ids : UserDto → List String
team_ids u = elim u.teams [ none ↦ [] | some ts ↦ map (λ t. t.id) ts ]
