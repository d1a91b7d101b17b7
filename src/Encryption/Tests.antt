-- ===== src/Encryption/Tests.antt =====
-- A cipher that adds the key to the text (RichdaleAccounting/nexus-core/src/edge/encryption.rs).
use rich_aim_acct_inv.Prelude.{
  ℕ, zero, suc, ◌≡◌, ◌≢◌, ◌⊎◌, ◌+◌, refl, sym, [], ◌∷◌, ◌++◌, length, String, Result, ok, err,
  arith, true, false, eq_self, ◌==◌, if◌then◌else◌,
}
use rich_aim_acct_inv.Encryption.{
  Bytes, Primitives, EncryptionError, split_at, key_size, derive_kek, wrap_dek, unwrap_dek,
  change_password, encrypt_field, decrypt_field, is_sensitive_field,
}
use rich_aim_acct_inv.Encryption.Fields.{encrypt_json, decrypt_json}
use rich_aim_acct_inv.Encryption.Passwords.{change_password_lem}
use rich_aim_acct_inv.Encryption.Json.{decrypt_json-encrypt_json}
use rich_aim_acct_inv.Encryption.Texts.{codes, of_codes, of_codes-codes}

abbrev fill : ℕ → ℕ → Bytes
fill x zero = []
fill x (suc n) = x ∷ fill x n

abbrev first : Bytes → ℕ
first [] = 0
first (x ∷ xs) = x

-- The tag is the key's first byte, sixteen times.
abbrev same_tag : Bytes → Bytes × Bytes → Result String Bytes
same_tag key parts = if first parts.0 == first key then ok parts.1 else err "aead::Error"

toy_decrypts :
    (key nonce plaintext : Bytes)
    → same_tag key (split_at 16 (fill (first key) 16 ++ plaintext)) ≡ ok plaintext
toy_decrypts key nonce plaintext = rw (eq_self (first key)) refl

toy_size :
    (key nonce plaintext : Bytes)
    → length (fill (first key) 16 ++ plaintext) ≡ length plaintext + 16
toy_size key nonce plaintext = omega arith

abbrev toy : Primitives String
toy = record {
  encrypt = λ key nonce plaintext. fill (first key) 16 ++ plaintext;
  decrypt = λ key nonce blob. same_tag key (split_at 16 blob);
  hkdf = λ salt password info n. fill (first password) n;
  as_bytes = codes;
  from_utf8 = λ bytes. ok (of_codes bytes);
  to_string = λ v. ok v;
  from_str = λ s. ok s;
  decrypt-encrypt = toy_decrypts;
  encrypt_size = toy_size;
  from_utf8-as_bytes = λ s i. ok (of_codes-codes s i);
  depth = λ v. 0;
  has_floats = λ v. false;
  from_str-to_string = λ v s flat exact h. sym h;
}

abbrev salt : Bytes
salt = 7 ∷ []

abbrev nonce : Bytes
nonce = fill 9 12

abbrev other_nonce : Bytes
other_nonce = fill 8 12

abbrev dek : Bytes
dek = fill 5 32

abbrev wrapped : Bytes
unfolding wrap_dek derive_kek
wrapped = wrap_dek toy nonce dek (derive_kek toy "old" salt)

sensitive : (is_sensitive_field "ssn" ≡ true) × (is_sensitive_field "SSN" ≡ false)
unfolding is_sensitive_field
sensitive = (refl, refl)

field_comes_back : decrypt_field toy (encrypt_field toy nonce "12-345" dek) dek ≡ ok "12-345"
unfolding encrypt_field decrypt_field
field_comes_back = refl

wrong_password :
    change_password toy other_nonce "new" "newer" salt wrapped
    ≡ err (EncryptionError.decryption "aead::Error")
unfolding change_password wrap_dek derive_kek
wrong_password = refl

too_short : decrypt_field toy (fill 0 27) dek ≡ err (EncryptionError.invalid_ciphertext 27 28)
unfolding decrypt_field
too_short = refl

change_password_lem_example :
    ((key : Bytes) × (again : Bytes) × (unwrap_dek toy wrapped (derive_kek toy "old" salt) ≡ ok key)
      × (change_password toy other_nonce "old" "new" salt wrapped ≡ ok again)
      × (unwrap_dek toy again (derive_kek toy "new" salt) ≡ ok key))
    ⊎ ((e : EncryptionError) × (unwrap_dek toy wrapped (derive_kek toy "old" salt) ≡ err e)
        × (change_password toy other_nonce "old" "new" salt wrapped ≡ err e))
change_password_lem_example = change_password_lem toy other_nonce "old" "new" salt wrapped refl

decrypt_json-encrypt_json_example :
    ((length dek ≡ key_size)
      × ((blob : Bytes) × (encrypt_json toy nonce "{}" dek ≡ ok blob)
          × (decrypt_json toy blob dek ≡ ok "{}")))
    ⊎ ((length dek ≢ key_size)
        × (encrypt_json toy nonce "{}" dek ≡ err (EncryptionError.invalid_key_length (length dek)))
        × ((blob : Bytes)
            → decrypt_json toy blob dek ≡ err (EncryptionError.invalid_key_length (length dek))))
decrypt_json-encrypt_json_example =
    decrypt_json-encrypt_json toy nonce dek "{}" "{}" refl (omega arith) refl refl
