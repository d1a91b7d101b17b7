-- ===== src/Encryption/Fields.antt =====
-- FieldEncryptor, which takes keys of any length
-- (RichdaleAccounting/nexus-core/src/edge/encryption.rs).
use rich_aim_acct_inv.Prelude.{String, Result, ok}
use rich_aim_acct_inv.Encryption.{
  Bytes, Primitives, EncryptionError, map_err, and_then, key_array, encrypt_field as encrypt_text,
  decrypt_field as decrypt_text,
}

module _ {V : Type 0} (p : Primitives V) where
  open p use {to_string, from_str}

  unfoldable pub encrypt_field : Bytes → String → Bytes → Result EncryptionError Bytes
  unfolding encrypt_text
  encrypt_field nonce plaintext key =
      and_then (key_array key) (λ k. ok (encrypt_text p nonce plaintext k))

  unfoldable pub decrypt_field : Bytes → Bytes → Result EncryptionError String
  unfolding decrypt_text
  decrypt_field ciphertext key = and_then (key_array key) (λ k. decrypt_text p ciphertext k)

  unfoldable pub encrypt_json : Bytes → V → Bytes → Result EncryptionError Bytes
  unfolding encrypt_field
  encrypt_json nonce value key =
      and_then (map_err EncryptionError.json (to_string value)) (λ s. encrypt_field nonce s key)

  unfoldable pub decrypt_json : Bytes → Bytes → Result EncryptionError V
  unfolding decrypt_field
  decrypt_json ciphertext key =
      and_then (decrypt_field ciphertext key) (λ s. map_err EncryptionError.json (from_str s))
