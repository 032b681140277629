-- ===== src/Encryption/Clear.antt =====
-- A cipher that leaves the text as it is: the laws of ciphers can hold.
use schematica_api.Common.{
  String, false, ◌≡◌, refl, Option, none, some, arith, if◌then◌else◌, Bool-cases, inl, inr,
}
use schematica_api.Encryption.{Cipher}
use schematica_api.Encryption.RoundTrip.{IsCipher, has_colon}

-- It refuses texts with a colon, which are no hexadecimal text.
abbrev pub clear : Cipher
clear = record {
  seal = λ iv text. if has_colon text then none else some ("ff", text);
  unseal = λ iv tag encrypted. some encrypted;
}

ff : has_colon "ff" ≡ false
unfolding has_colon
ff = refl

clear_seal :
    (iv text tag encrypted : String)
    → clear.seal iv text ≡ some (tag, encrypted)
    → (◌≡◌ {A = String} "ff" tag) × (text ≡ encrypted) × (has_colon text ≡ false)
clear_seal iv text tag encrypted h = elim (Bool-cases (has_colon text)) [
  | inl c ↦ ground (arith, c)
  | inr c ↦
      let same : ◌≡◌ {A = Option (String × String)} (some ("ff", text)) (some (tag, encrypted)) =
        rw c at h in
      (cc, cc, c)
]

pub clear-IsCipher : IsCipher clear
clear-IsCipher = record {
  unseal-seal = λ iv text tag encrypted h.
      let (t, e, c) = clear_seal iv text tag encrypted h in rw (← e) refl;
  hexadecimal = λ iv text tag encrypted h.
      let (t, e, c) = clear_seal iv text tag encrypted h in (rw (← t) ff, rw (← e) c);
  tagged = λ iv text tag encrypted h.
      let (t, e, c) = clear_seal iv text tag encrypted h in rw (← t) refl;
  same_length = λ iv text tag encrypted h.
      let (t, e, c) = clear_seal iv text tag encrypted h in rw (← e) refl;
}
