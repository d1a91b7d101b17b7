-- ===== src/Encryption/Json.antt =====
-- JSON values in FieldEncryptor (RichdaleAccounting/nexus-core/src/edge/encryption.rs).
use rich_aim_acct_inv.Prelude.{
  ◌≡◌, ◌≢◌, ◌⊎◌, ◌==◌, ◌<◌, false, refl, inl, inr, length, String, Bool-cases, ok, err, arith,
}
use rich_aim_acct_inv.Encryption.{
  Bytes, Primitives, EncryptionError, nonce_size, key_size, encrypt_field as encrypt_text,
}
use rich_aim_acct_inv.Encryption.Fields.{encrypt_json, decrypt_json}
use rich_aim_acct_inv.Encryption.Blobs.{decrypt_field-encrypt_field}

module _ {V : Type 0} (p : Primitives V) where
  -- A value that serde_json can write, that is nested less than 128 deep and has no floating-point
  -- number, is encrypted under a key of 32 bytes, with a nonce of 12 bytes, to what is decrypted to the
  -- same value. Under a key of any other length both calls are refused with that length.
  pub decrypt_json-encrypt_json :
      (nonce key : Bytes) (value : V) (s : String)
      → length nonce ≡ nonce_size
      → p.depth value < 128
      → p.has_floats value ≡ false
      → p.to_string value ≡ ok s
      → ((length key ≡ key_size)
          × ((blob : Bytes) × (encrypt_json p nonce value key ≡ ok blob)
              × (decrypt_json p blob key ≡ ok value)))
        ⊎ ((length key ≢ key_size)
            × (encrypt_json p nonce value key
                ≡ err (EncryptionError.invalid_key_length (length key)))
            × ((blob : Bytes)
                → decrypt_json p blob key ≡ err (EncryptionError.invalid_key_length (length key))))
  unfolding encrypt_json decrypt_json
  decrypt_json-encrypt_json nonce key value s h flat exact written =
      elim (Bool-cases (length key == key_size)) [
        | inl fits ↦ inl (
          ground arith,
          (
            encrypt_text p nonce s key,
            rw (written, fits) refl,
            rw
                (
                  fits,
                  decrypt_field-encrypt_field p nonce key s h,
                  p.from_str-to_string value s flat exact written,
                )
                refl,
          ),
        )
        | inr other ↦ inr (λ e. ground arith, rw (written, other) refl, λ blob. rw other refl)
      ]
