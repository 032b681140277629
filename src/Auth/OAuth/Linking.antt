-- ===== src/Auth/OAuth/Linking.antt =====
-- What a sign-in with an account of another site leaves behind.
use schematica_api.Auth.{without_password, teams_of}
use schematica_api.Auth.OAuth.{
  OauthUserDto, has_username, has_account, new_user, known_user, provision, find_available_username,
  validate_oauth_try, validate_oauth_user,
}
use schematica_api.Auth.OAuth.Names.{find_available_username_total}
use schematica_api.Common.{
  String, ℕ, Bool, true, false, ◌≡◌, inl, inr, refl, arith, none, some, List, [], ◌∷◌, ◌++◌, find,
  any, eq_iff, eq_refl, Bool-cases,
}
use schematica_api.Database.{
  Database, PrismaService, IsPrisma, memory_client, memory_client-IsPrisma, for_every_client,
}
use schematica_api.Entities.{User, AuthProvider, user_clash, auth_provider_clash}
use schematica_api.Users.{has_user_id}

any-none : {A : Type 0} (p : A → Bool) (t : List A) → find p t ≡ none → any p t ≡ false
any-none p [] h = refl
any-none p (x ∷ t) h = ground (arith, any-none p t)

find-append_new :
    {A : Type 0} (p : A → Bool) (x : A) (t : List A)
    → find p t ≡ none
    → p x ≡ true
    → find p (t ++ x ∷ []) ≡ some x
find-append_new p x [] h fits = rw fits refl
find-append_new p x (y ∷ t) h fits = elim (Bool-cases (p y)) [
  | inl here ↦ let e = rw here at h in cc
  | inr other ↦ rw other (find-append_new p x t (rw other at h) fits)
]

-- A new row clashes with nobody, where its id and its name are free.
no_user_clash :
    (new_id name : String) (t : List User)
    → find (has_user_id new_id) t ≡ none
    → find (has_username name) t ≡ none
    → any (user_clash (new_user new_id name)) t ≡ false
no_user_clash new_id name [] fresh free = refl
no_user_clash new_id name (u ∷ t) fresh free = ground (
  arith,
  no_user_clash new_id name t,
  eq_iff u.id new_id,
  eq_iff new_id u.id,
  eq_iff u.username name,
  eq_iff name u.username,
)

abbrev account_of : OauthUserDto → String → AuthProvider
account_of details user_id = record {
  provider = details.provider;
  provider_id = details.provider_id;
  user_id = user_id;
}

no_account_clash :
    (details : OauthUserDto) (user_id : String) (t : List AuthProvider)
    → find (has_account details) t ≡ none
    → any (auth_provider_clash (account_of details user_id)) t ≡ false
no_account_clash details user_id [] h = refl
no_account_clash details user_id (a ∷ t) h = ground (
  arith,
  no_account_clash details user_id t,
  eq_iff a.provider details.provider,
  eq_iff details.provider a.provider,
  eq_iff a.provider_id details.provider_id,
  eq_iff details.provider_id a.provider_id,
)

abbrev pub after_sign_in : Database → OauthUserDto → String → String → Database
after_sign_in db details new_id name = record db {
  users = db.users ++ new_user new_id name ∷ [];
  auth_providers = db.auth_providers ++ account_of details new_id ∷ [];
}

-- A sign-in that finds no account creates a user with the account, under a name that nobody had.
abbrev pub IsProvisioned : PrismaService → Database → OauthUserDto → ℕ → String → String → Type 0
IsProvisioned client db details start new_id name =
    (find (has_username name) db.users ≡ none)
    × (validate_oauth_user client db details start new_id ≡ record {
      db = after_sign_in db details new_id name;
      user = some (record { user = without_password (new_user new_id name); teams = [] });
    })

module _ (db : Database) (details : OauthUserDto) (start : ℕ) (new_id : String)
    (unknown : find (has_account details) db.auth_providers ≡ none)
    (fresh : find (has_user_id new_id) db.users ≡ none) where
  IsProvisioned-in_memory :
      (name : String)
      → find_available_username memory_client db details.username start ≡ some name
      → find (has_username name) db.users ≡ none
      → IsProvisioned memory_client db details start new_id name
  unfolding validate_oauth_user validate_oauth_try provision
  IsProvisioned-in_memory name found free =
      let alone = no_user_clash new_id name db.users fresh free in
      let single = no_account_clash details new_id db.auth_providers unknown in
      (
        free,
        rw (validate_oauth_user, validate_oauth_try, unknown, found, provision, alone, single) refl,
      )

  again_in_memory :
      (name : String) (details' : OauthUserDto) (start' : ℕ) (other_id : String)
      → details'.provider ≡ details.provider
      → details'.provider_id ≡ details.provider_id
      → validate_oauth_user memory_client
          (after_sign_in db details new_id name)
          details'
          start'
          other_id
        ≡ record {
          db = after_sign_in db details new_id name;
          user = some (record {
            user = without_password (new_user new_id name);
            teams = teams_of db new_id;
          });
        }
  unfolding validate_oauth_user validate_oauth_try known_user
  again_in_memory name details' start' other_id same_site same_account =
      let linked : find (has_account details') (after_sign_in db details new_id name).auth_providers
          ≡ some (account_of details new_id) =
        rw (same_site, same_account)
          (find-append_new (has_account details) (account_of details new_id) db.auth_providers
            unknown (rw (eq_refl details.provider, eq_refl details.provider_id) refl)) in
      let known : find (has_user_id new_id) (after_sign_in db details new_id name).users
          ≡ some (new_user new_id name) =
        find-append_new (has_user_id new_id) (new_user new_id name) db.users fresh
          (eq_refl new_id) in
      rw (validate_oauth_user, validate_oauth_try, linked, known_user, known) refl

-- A later sign-in with the same account answers the user of the first one and changes nothing.
abbrev pub IsKnown : PrismaService → Database → OauthUserDto → String → String → Type 0
IsKnown client db details new_id name =
    (details' : OauthUserDto) (start' : ℕ) (other_id : String)
    → details'.provider ≡ details.provider
    → details'.provider_id ≡ details.provider_id
    → validate_oauth_user client (after_sign_in db details new_id name) details' start' other_id
      ≡ record {
        db = after_sign_in db details new_id name;
        user =
            some (record {
              user = without_password (new_user new_id name);
              teams = teams_of db new_id;
            });
      }

-- Whatever the users are called, the first sign-in with an account that nobody has creates a user
-- under a name that nobody had, where the id of the new row is new; and a second sign-in with that
-- account, on the database as the first left it, answers that user and changes nothing, whatever name
-- the other site then reports.
pub validate_oauth_user_linked :
    (client : PrismaService)
    → IsPrisma client
    → (db : Database) (details : OauthUserDto) (start : ℕ) (new_id : String)
    → find (has_account details) db.auth_providers ≡ none
    → find (has_user_id new_id) db.users ≡ none
    → (name : String) × IsProvisioned client db details start new_id name
      × IsKnown client db details new_id name
validate_oauth_user_linked client laws db details start new_id unknown fresh =
    for_every_client
      (λ c.
        (name : String) × IsProvisioned c db details start new_id name
        × IsKnown c db details new_id name)
      client laws
      (let (name, found, free) =
          find_available_username_total memory_client memory_client-IsPrisma db details.username
            start in
        (
          name,
          IsProvisioned-in_memory db details start new_id unknown fresh name found free,
          again_in_memory db details start new_id unknown fresh name,
        ))
