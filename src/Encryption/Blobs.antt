-- ===== src/Encryption/Blobs.antt =====
-- What is encrypted is decrypted again (RichdaleAccounting/nexus-core/src/edge/encryption.rs).
use rich_aim_acct_inv.Prelude.{
  ℕ, zero, suc, ◌≡◌, ◌∙◌, ◌+◌, ◌==◌, refl, sym, ap, false, ltb, inl, inr, [], ◌∷◌, ◌++◌, length,
  length-append, String, Bool-cases, Result-cases, ok, arith,
}
use rich_aim_acct_inv.Encryption.{
  Bytes, Primitives, nonce_size, min_blob_len, key_size, split_at, encrypt_bytes, decrypt_bytes,
  wrap_dek, unwrap_dek, encrypt_field, decrypt_field,
}

split_at-append : (n : ℕ) (xs ys : Bytes) → length xs ≡ n → split_at n (xs ++ ys) ≡ (xs, ys)
split_at-append n [] ys h = rw (sym h) refl
split_at-append zero (x ∷ xs) ys h = let no_way : ⊥ = omega arith in absurd no_way
split_at-append (suc n) (x ∷ xs) ys h =
    let ih = split_at-append n xs ys (omega arith) in λ i. (x ∷ (ih i).0, (ih i).1)

module _ {V : Type 0} (p : Primitives V) where
  open p use {encrypt, encrypt_size, decrypt-encrypt, from_utf8-as_bytes, as_bytes}

  pub decrypt_bytes-encrypt_bytes :
      (nonce plaintext key : Bytes)
      → length nonce ≡ nonce_size
      → decrypt_bytes p (encrypt_bytes p nonce plaintext key) key ≡ ok plaintext
  unfolding encrypt_bytes decrypt_bytes
  decrypt_bytes-encrypt_bytes nonce plaintext key h =
      let ct = encrypt key nonce plaintext in
      let total : length (nonce ++ ct) ≡ length nonce + length ct = length-append nonce ct in
      let size : length ct ≡ length plaintext + 16 = encrypt_size key nonce plaintext in
      let enough : ltb (length (nonce ++ ct)) min_blob_len ≡ false = ground arith in
      rw (enough, split_at-append nonce_size nonce ct h, decrypt-encrypt key nonce plaintext) refl

  -- A key that was wrapped is unwrapped.
  pub unwrap_dek-wrap_dek :
      (nonce dek kek : Bytes)
      → length nonce ≡ nonce_size
      → length dek ≡ key_size
      → unwrap_dek p (wrap_dek p nonce dek kek) kek ≡ ok dek
  unfolding unwrap_dek wrap_dek
  unwrap_dek-wrap_dek nonce dek kek h size =
      rw (decrypt_bytes-encrypt_bytes nonce dek kek h, size) refl

  -- Whatever is unwrapped has the size of a key.
  pub unwrap_dek-size :
      (wrapped kek dek : Bytes) → unwrap_dek p wrapped kek ≡ ok dek → length dek ≡ key_size
  unfolding unwrap_dek
  unwrap_dek-size wrapped kek dek h = elim (Result-cases (decrypt_bytes p wrapped kek)) [
    | inr (x, e) ↦ let no_way : ⊥ = ground arith in absurd no_way
    | inl (b, e) ↦ elim (Bool-cases (length b == key_size)) [
      | inl fits ↦ let same : b ≡ dek = ground arith in ap length (sym same) ∙ ground arith
      | inr differs ↦ let no_way : ⊥ = ground arith in absurd no_way
    ]
  ]

  pub decrypt_field-encrypt_field :
      (nonce dek : Bytes) (plaintext : String)
      → length nonce ≡ nonce_size
      → decrypt_field p (encrypt_field p nonce plaintext dek) dek ≡ ok plaintext
  unfolding encrypt_field decrypt_field
  decrypt_field-encrypt_field nonce dek plaintext h =
      rw
        (decrypt_bytes-encrypt_bytes nonce (as_bytes plaintext) dek h, from_utf8-as_bytes plaintext)
        refl
