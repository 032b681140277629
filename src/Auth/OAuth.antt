-- ===== src/Auth/OAuth.antt =====
-- auth/auth.service.ts and auth/strategies/gitlab.strategy.ts: a user who signs in with an account
-- of another site is found by that account or created, under a name that nobody has. The random
-- start of the search is an argument.
pub mod Names
pub mod Linking
use schematica_api.Auth.{UserWithTeams, without_password, is_deleted, teams_of}
use schematica_api.Auth.Suffixes.{username_suffixes}
use schematica_api.Common.{
  String, ℕ, zero, suc, ◌+◌, ◌%◌, Bool, true, ◌&&◌, Option, none, some, List, [], ◌∷◌, length,
  get_elem?, ◌==◌, if◌then◌else◌, template, print_nat,
}
use schematica_api.Database.{Database, PrismaService}
use schematica_api.Entities.{User, AuthProvider, Team}
use schematica_api.Exceptions.{Result, ok, throw, unauthorized}
use schematica_api.Prisma.Errors.{Try, fine, raise, attempt, or_not_found, ◌>>=◌}
use schematica_api.User.{guest}
use schematica_api.Users.{has_user_id}

pub record OauthUserDto : Type 0 where
  pub provider : String
  pub provider_id : String
  pub username : String

-- The part of the profile of GitLab that the strategy reads.
pub record GitlabProfile : Type 0 where
  pub id : ℕ
  pub username : Option String

abbrev pub has_username : String → User → Bool
has_username name u = u.username == name

-- `where: { provider_providerId: { provider, providerId } }`
abbrev pub has_account : OauthUserDto → AuthProvider → Bool
has_account details a = a.provider == details.provider && a.provider_id == details.provider_id

-- An index outside an array reads `undefined`.
abbrev pub text_at : List String → ℕ → String
text_at texts i = elim (get_elem? texts i) [ none ↦ "undefined" | some s ↦ s ]

abbrev pub numbered : String → ℕ → String
numbered base n = template (base ∷ print_nat n ∷ [])

abbrev pub suffixed : String → ℕ → String
suffixed base i = template (base ∷ text_at username_suffixes (i % length username_suffixes) ∷ [])

-- A row as the client creates it.
abbrev pub new_user : String → String → User
new_user new_id username = record {
  id = new_id;
  username = username;
  password = none;
  role = guest;
  profile_image = none;
  token_version = 1;
  deleted_at = none;
}

-- What a sign-in leaves behind and answers; the answer `null` is none.
pub record SignIn : Type 0 where
  pub db : Database
  pub user : Option UserWithTeams

module _ (client : PrismaService) where
  -- The rounds of the `for` loop that are left, from `i` on.
  unfoldable pub try_suffixes : Database → String → ℕ → ℕ → ℕ → Option String
  try_suffixes db base start i zero = none
  try_suffixes db base start i (suc left) =
      let rest = try_suffixes db base start (i + 1) left in
      elim (client.user.find_first (has_username (suffixed base (start + i))) db.users) [
        | none ↦ some (suffixed base (start + i))
        | some user ↦ rest
      ]

  -- The `while (true)` loop on fuel; none: the fuel is used up.
  unfoldable pub count_up : Database → String → ℕ → ℕ → Option String
  count_up db base zero counter = none
  count_up db base (suc fuel) counter =
      let rest = count_up db base fuel (counter + 1) in
      elim (client.user.find_first (has_username (numbered base counter)) db.users) [
        | none ↦ some (numbered base counter)
        | some user ↦ rest
      ]

  -- Each round of the last loop that fails has met another user.
  unfoldable pub find_available_username : Database → String → ℕ → Option String
  unfolding try_suffixes count_up
  find_available_username db base start =
      elim (client.user.find_first (has_username base) db.users) [
        | none ↦ some base
        | some user ↦ elim (try_suffixes db base start 0 (length username_suffixes)) [
          | some name ↦ some name
          | none ↦ count_up db base (suc (length db.users)) 1
        ]
      ]

  -- The row of a known account leads to its user; it is a required relation.
  unfoldable pub known_user : Database → AuthProvider → Try SignIn
  known_user db account = do
    user ← or_not_found (client.user.find_first (has_user_id account.user_id) db.users)
    fine (record {
      db = db;
      user =
          if is_deleted user
          then none
          else some (record { user = without_password user; teams = teams_of db user.id });
    })

  -- `user.create` with the nested account.
  unfoldable pub provision : Database → OauthUserDto → String → String → Try SignIn
  provision db details new_id unique_username = do
    users ← attempt (client.user.create true (new_user new_id unique_username) db.users)
    accounts ← attempt (client.auth_provider.create true (account new_id) db.auth_providers)
    fine (record {
      db = record db { users = users; auth_providers = accounts };
      user =
          some (record { user = without_password (new_user new_id unique_username); teams = [] });
    })
    where
      account : String → AuthProvider
      account user_id = record {
        provider = details.provider;
        provider_id = details.provider_id;
        user_id = user_id;
      }

  unfoldable pub validate_oauth_try : Database → OauthUserDto → ℕ → String → Try SignIn
  unfolding known_user provision find_available_username
  validate_oauth_try db details start new_id =
      elim (client.auth_provider.find_first (has_account details) db.auth_providers) [
        | some account ↦ known_user db account
        | none ↦ do
          -- the search always ends in a name
          unique_username ← or_not_found (find_available_username db details.username start)
          provision db details new_id unique_username
      ]

  -- Every error ends in `null`.
  unfoldable pub validate_oauth_user : Database → OauthUserDto → ℕ → String → SignIn
  unfolding validate_oauth_try
  validate_oauth_user db details start new_id = elim (validate_oauth_try db details start new_id) [
    | fine done ↦ done
    | raise e ↦ record { db = db; user = none }
  ]

  -- `GitLabStrategyFastify.validate`
  unfoldable pub validate_gitlab : Database → GitlabProfile → ℕ → String → Result SignIn
  unfolding validate_oauth_user
  validate_gitlab db profile start new_id = elim profile.username [
    | none ↦ throw (unauthorized "Could not authenticate. GitLab profile must have a username.")
    | some username ↦
        if username == ""
        then throw (unauthorized "Could not authenticate. GitLab profile must have a username.")
        else answered (
            validate_oauth_user db
              (record {
                provider = "gitlab";
                provider_id = print_nat profile.id;
                username = username;
              })
              start new_id)
  ]
    where
      answered : SignIn → Result SignIn
      answered done = elim done.user [
        | none ↦ throw (unauthorized "Could not process user authentication.")
        | some user ↦ ok done
      ]
