-- ===== src/Encryption/RoundTrip.antt =====
-- A decrypted encryption.
use Prim.Native.String
use text.Mathlib.TextLemmas.{nil-append, cons-append}
use schematica_api.Common.{
  String, Bool, false, ◌||◌, ◌≡◌, inl, inr, refl, arith, some, [], ◌∷◌, ◌==◌, Option-cases,
}
use schematica_api.Encryption.{Cipher, is_colon, add_to_first, split, join, encrypt, parts, decrypt}
use schematica_api.Exceptions.{ok, throw, internal_server_error}

unfoldable pub has_colon : String → Bool
has_colon Prim.Native.String.[] = false
has_colon (Prim.Native.String.◌∷◌ c s) = is_colon c || has_colon s

split-colon : (s : String) → split (Prim.Native.String.◌++◌ ":" s) ≡ "" ∷ split s
unfolding split
split-colon s = rw (cons-append ":" Prim.Native.String.[] s, nil-append s) refl

split-join_first :
    (a s : String)
    → has_colon a ≡ false
    → split (Prim.Native.String.◌++◌ a (Prim.Native.String.◌++◌ ":" s)) ≡ a ∷ split s
unfolding split has_colon add_to_first
split-join_first Prim.Native.String.[] s h =
    rw (nil-append (Prim.Native.String.◌++◌ ":" s), split-colon s) refl
split-join_first (Prim.Native.String.◌∷◌ c a) s h =
    rw (cons-append c a (Prim.Native.String.◌++◌ ":" s)) (ground (arith, split-join_first a s))

split-plain : (a : String) → has_colon a ≡ false → split a ≡ a ∷ []
unfolding split has_colon add_to_first
split-plain Prim.Native.String.[] h = refl
split-plain (Prim.Native.String.◌∷◌ c a) h = ground (arith, split-plain a)

-- The documented behaviour of AES-GCM on hexadecimal buffers: what is sealed is unsealed to the same
-- text, the tag is never empty, and the encrypted text is as long as the text.
pub record IsCipher (c : Cipher) : Type 0 where
  pub unseal-seal :
      (iv text tag encrypted : String)
      → c.seal iv text ≡ some (tag, encrypted)
      → c.unseal iv tag encrypted ≡ some text
  pub hexadecimal :
      (iv text tag encrypted : String)
      → c.seal iv text ≡ some (tag, encrypted)
      → (has_colon tag ≡ false) × (has_colon encrypted ≡ false)
  pub tagged :
      (iv text tag encrypted : String)
      → c.seal iv text ≡ some (tag, encrypted)
      → (tag == "") ≡ false
  pub same_length :
      (iv text tag encrypted : String)
      → c.seal iv text ≡ some (tag, encrypted)
      → (encrypted == "") ≡ (text == "")

module _ (cipher : Cipher) (laws : IsCipher cipher) (iv text message : String)
    (plain_iv : has_colon iv ≡ false) (encrypts : encrypt cipher iv text ≡ ok message) where
  sealed :
      (tag : String) × (encrypted : String) × (cipher.seal iv text ≡ some (tag, encrypted))
      × (join iv tag encrypted ≡ message)
  unfolding encrypt
  sealed = elim (Option-cases (cipher.seal iv text)) [
    | inl e ↦ ground (arith, e)
    | inr ((tag, encrypted), e) ↦
        let same : ok (join iv tag encrypted) ≡ ok message = rw (e, encrypt) at encrypts in
        (tag, encrypted, e, cc)
  ]

  split-message :
      (tag : String) × (encrypted : String) × (cipher.seal iv text ≡ some (tag, encrypted))
      × (split message ≡ iv ∷ tag ∷ encrypted ∷ [])
  split-message =
      let (tag, encrypted, e, same) = sealed in
      let (plain_tag, plain_encrypted) = laws.hexadecimal iv text tag encrypted e in
      (
        tag,
        encrypted,
        e,
        rw
            (
              ← same,
              split-join_first iv _ plain_iv,
              split-join_first tag encrypted plain_tag,
              split-plain encrypted plain_encrypted,
            )
            refl,
      )

-- A text that is not empty is decrypted to itself after it was encrypted, with an initialisation
-- vector that is not empty.
pub decrypt-encrypt :
    (cipher : Cipher)
    → IsCipher cipher
    → (iv text message : String) → has_colon iv ≡ false
    → (iv == "") ≡ false
    → (text == "") ≡ false
    → encrypt cipher iv text ≡ ok message
    → decrypt cipher message ≡ ok text
unfolding decrypt parts
decrypt-encrypt cipher laws iv text message plain_iv some_iv some_text encrypts =
    let (tag, encrypted, e, parted) = split-message cipher laws iv text message plain_iv encrypts in
    rw
      (
        parted,
        decrypt,
        some_iv,
        laws.tagged iv text tag encrypted e,
        laws.same_length iv text tag encrypted e,
        some_text,
        laws.unseal-seal iv text tag encrypted e,
      )
      refl

-- The empty text is encrypted, but its encryption is not decrypted: the missing data counts as a
-- malformed text.
pub decrypt-encrypt_empty :
    (cipher : Cipher)
    → IsCipher cipher
    → (iv message : String) → has_colon iv ≡ false
    → encrypt cipher iv "" ≡ ok message
    → decrypt cipher message ≡ throw (internal_server_error "Failed to decrypt data.")
unfolding decrypt parts
decrypt-encrypt_empty cipher laws iv message plain_iv encrypts =
    let (tag, encrypted, e, parted) = split-message cipher laws iv "" message plain_iv encrypts in
    rw (parted, decrypt) (ground (arith, laws.same_length iv "" tag encrypted e))
