-- ===== src/Encryption/Passwords.antt =====
-- Changing the password (RichdaleAccounting/nexus-core/src/edge/encryption.rs).
use rich_aim_acct_inv.Prelude.{◌≡◌, ◌⊎◌, refl, inl, inr, length, String, Result-cases, ok, err}
use rich_aim_acct_inv.Encryption.{
  Bytes, Primitives, EncryptionError, nonce_size, derive_kek, wrap_dek, unwrap_dek, change_password,
}
use rich_aim_acct_inv.Encryption.Blobs.{unwrap_dek-wrap_dek, unwrap_dek-size}

module _ {V : Type 0} (p : Primitives V) where
  -- If a wrapped key is unwrapped with the old password, changing the password succeeds, and what it
  -- returns is unwrapped with the new password to the same key, so that all that was encrypted under
  -- it stays readable. Otherwise the error of unwrapping is returned.
  pub change_password_lem :
      (nonce : Bytes) (old_password new_password : String) (salt wrapped_dek : Bytes)
      → length nonce ≡ nonce_size
      → ((dek : Bytes) × (wrapped : Bytes) × (unwrap_dek p wrapped_dek
              (derive_kek p old_password salt)
            ≡ ok dek)
          × (change_password p nonce old_password new_password salt wrapped_dek ≡ ok wrapped)
          × (unwrap_dek p wrapped (derive_kek p new_password salt) ≡ ok dek))
        ⊎ ((e : EncryptionError) × (unwrap_dek p wrapped_dek (derive_kek p old_password salt)
              ≡ err e)
            × (change_password p nonce old_password new_password salt wrapped_dek ≡ err e))
  unfolding change_password
  change_password_lem nonce old_password new_password salt wrapped_dek h =
      elim (Result-cases (unwrap_dek p wrapped_dek (derive_kek p old_password salt))) [
        | inl (dek, e) ↦
            let kek = derive_kek p new_password salt in
            inl (
              dek,
              wrap_dek p nonce dek kek,
              e,
              rw e refl,
              unwrap_dek-wrap_dek p nonce dek kek h
                  (unwrap_dek-size p wrapped_dek (derive_kek p old_password salt) dek e),
            )
        | inr (x, e) ↦ inr (x, e, rw e refl)
      ]
