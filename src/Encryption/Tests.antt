-- ===== src/Encryption/Tests.antt =====
-- Round trips through a cipher.
use schematica_api.Common.{◌≡◌, refl}
use schematica_api.Encryption.{encrypt, decrypt}
use schematica_api.Encryption.Clear.{clear, clear-IsCipher}
use schematica_api.Encryption.RoundTrip.{has_colon, decrypt-encrypt}
use schematica_api.Exceptions.{ok}

decrypt-encrypt_example : decrypt clear "a1:ff:secret" ≡ ok "secret"
unfolding encrypt has_colon
decrypt-encrypt_example =
    decrypt-encrypt clear clear-IsCipher "a1" "secret" "a1:ff:secret" refl refl refl refl
