-- ===== src/Encryption.antt =====
-- encryption/encryption.service.ts. The cipher (AES-GCM of node:crypto, under the configured key) is
-- a parameter, with its buffers held as the hexadecimal texts that the service writes and reads; the
-- initialisation vector of a call is an argument of it.
pub mod RoundTrip
pub mod Clear
mod Tests
use Prim.Native.Char.{Char, code}
use Prim.Native.String
use schematica_api.Common.{
  String, ℕ, Bool, true, false, not, ◌&&◌, Option, none, some, List, [], ◌∷◌, ◌==◌, nat_eq,
  if◌then◌else◌,
}
use schematica_api.Exceptions.{Result, ok, throw, internal_server_error}

-- `createCipheriv` and `createDecipheriv` with their calls: `seal` gives the tag and the encrypted text text,
-- `unseal` the text, or none where the call fails.
pub record Cipher : Type 0 where
  pub seal : String → String → Option (String × String)
  pub unseal : String → String → String → Option String

abbrev pub is_colon : Char → Bool
is_colon c = nat_eq (code c) 58

add_to_first : Char → List String → List String
add_to_first c [] = Prim.Native.String.◌∷◌ c "" ∷ []
add_to_first c (w ∷ ws) = Prim.Native.String.◌∷◌ c w ∷ ws

-- `text.split(':')`
unfoldable pub split : String → List String
unfolding add_to_first
split Prim.Native.String.[] = "" ∷ []
split (Prim.Native.String.◌∷◌ c s) = if is_colon c then "" ∷ split s else add_to_first c (split s)

abbrev pub join : String → String → String → String
join iv tag encrypted = Prim.Native.String.◌++◌ iv (
    Prim.Native.String.◌++◌ ":"
      (Prim.Native.String.◌++◌ tag (Prim.Native.String.◌++◌ ":" encrypted)))

unfoldable pub encrypt : Cipher → String → String → Result String
encrypt cipher iv plain_text = elim (cipher.seal iv plain_text) [
  | none ↦ throw (internal_server_error "Failed to encrypt data.")
  | some (tag, encrypted) ↦ ok (join iv tag encrypted)
]

-- The three parts, if they are there and not empty; further parts are ignored.
parts : List String → Option (String × String × String)
parts (iv ∷ tag ∷ encrypted ∷ more) =
    if not (iv == "") && (not (tag == "") && not (encrypted == ""))
    then some (iv, tag, encrypted)
    else none
parts _ = none

unfoldable pub decrypt : Cipher → String → Result String
unfolding parts
decrypt cipher encrypted_text = elim (parts (split encrypted_text)) [
  | none ↦ throw (internal_server_error "Failed to decrypt data.")
  | some (iv, tag, encrypted) ↦ elim (cipher.unseal iv tag encrypted) [
    | none ↦ throw (internal_server_error "Failed to decrypt data.")
    | some text ↦ ok text
  ]
]
