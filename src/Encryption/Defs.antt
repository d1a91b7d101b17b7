-- ===== src/Encryption/Defs.antt =====
-- Encryption of fields at rest (RichdaleAccounting/nexus-core/src/edge/encryption.rs). An array of bytes
-- is a list, whose length the theorems state. Random nonces are arguments.
use rich_aim_acct_inv.Prelude.{
  ℕ, zero, suc, ◌≡◌, ◌<◌, ◌+◌, ◌==◌, Bool, true, false, ltb, if◌then◌else◌, List, [], ◌∷◌, ◌++◌,
  length, String, str_eq, Result, ok, err,
}

abbrev pub Bytes : Type 0
Bytes = List ℕ

-- What `aes_gcm`, `hkdf`, `serde_json` and Rust's strings do. A ciphertext ends with a tag of 16
-- bytes; what is encrypted under a key and a nonce is decrypted under them; `expand` fills the bytes
-- that it is asked for; a text is read back from its bytes. `serde_json` reads back the text of a value
-- that is nested less than 128 deep, its limit on recursion, and has no floating-point number, which
-- its default parser need not read exactly.
pub record Primitives (V : Type 0) : Type 0 where
  pub encrypt : Bytes → Bytes → Bytes → Bytes
  pub decrypt : Bytes → Bytes → Bytes → Result String Bytes
  pub hkdf : Bytes → Bytes → Bytes → ℕ → Bytes
  pub as_bytes : String → Bytes
  pub from_utf8 : Bytes → Result String String
  pub to_string : V → Result String String
  pub from_str : String → Result String V
  pub decrypt-encrypt :
      (key nonce plaintext : Bytes) → decrypt key nonce (encrypt key nonce plaintext) ≡ ok plaintext
  pub encrypt_size :
      (key nonce plaintext : Bytes) → length (encrypt key nonce plaintext) ≡ length plaintext + 16
  pub from_utf8-as_bytes : (s : String) → from_utf8 (as_bytes s) ≡ ok s
  pub depth : V → ℕ
  pub has_floats : V → Bool
  pub from_str-to_string :
      (v : V) (s : String)
      → depth v < 128
      → has_floats v ≡ false
      → to_string v ≡ ok s
      → from_str s ≡ ok v

-- `invalid_utf8` is `Decrypt` with the text that it names.
pub data EncryptionError : Type 0 where
  encryption decryption json invalid_utf8 : String → EncryptionError
  invalid_key_length unwrap_failed : ℕ → EncryptionError
  invalid_ciphertext : ℕ → ℕ → EncryptionError

abbrev pub nonce_size : ℕ
nonce_size = 12

abbrev pub gcm_tag_size : ℕ
gcm_tag_size = 16

abbrev pub key_size : ℕ
key_size = 32

abbrev pub min_blob_len : ℕ
min_blob_len = nonce_size + gcm_tag_size

abbrev pub sensitive_fields : List String
sensitive_fields =
    "bank_account_number" ∷ "routing_number" ∷ "tax_id" ∷ "ssn" ∷ "credit_card_number" ∷ []

abbrev among : String → List String → Bool
among s [] = false
among s (t ∷ ts) = if str_eq t s then true else among s ts

unfoldable pub is_sensitive_field : String → Bool
is_sensitive_field field_name = among field_name sensitive_fields

-- `split_at`
abbrev pub split_at : ℕ → Bytes → Bytes × Bytes
split_at zero xs = ([], xs)
split_at (suc n) [] = ([], [])
split_at (suc n) (x ∷ xs) = let rest = split_at n xs in (x ∷ rest.0, rest.1)

-- `map_err(..)?`
abbrev pub map_err : {E A : Type 0} → (E → EncryptionError) → Result E A → Result EncryptionError A
map_err f (ok a) = ok a
map_err f (err e) = err (f e)

abbrev pub and_then :
    {A B : Type 0}
    → Result EncryptionError A
    → (A → Result EncryptionError B)
    → Result EncryptionError B
and_then (ok a) f = f a
and_then (err e) f = err e

abbrev pub of_key_size : Bytes → Result EncryptionError Bytes
of_key_size bytes =
    if length bytes == key_size
    then ok bytes
    else err (EncryptionError.unwrap_failed (length bytes))

-- `key.try_into()`
abbrev pub key_array : Bytes → Result EncryptionError Bytes
key_array key =
    if length key == key_size then ok key else err (EncryptionError.invalid_key_length (length key))

module _ {V : Type 0} (p : Primitives V) where
  open p use {encrypt, decrypt, hkdf, as_bytes, from_utf8, to_string, from_str}

  unfoldable pub derive_kek : String → Bytes → Bytes
  derive_kek password salt =
      hkdf salt (as_bytes password) (as_bytes "nexus-ledger-encryption-kek-v1") key_size

  -- The nonce stands in front of the ciphertext.
  unfoldable pub encrypt_bytes : Bytes → Bytes → Bytes → Bytes
  encrypt_bytes nonce plaintext key = nonce ++ encrypt key nonce plaintext

  unfoldable pub decrypt_bytes : Bytes → Bytes → Result EncryptionError Bytes
  decrypt_bytes blob key =
      if ltb (length blob) min_blob_len
      then err (EncryptionError.invalid_ciphertext (length blob) min_blob_len)
      else map_err EncryptionError.decryption
          (decrypt key (split_at nonce_size blob).0 (split_at nonce_size blob).1)

  unfoldable pub wrap_dek : Bytes → Bytes → Bytes → Bytes
  unfolding encrypt_bytes
  wrap_dek nonce dek kek = encrypt_bytes nonce dek kek

  unfoldable pub unwrap_dek : Bytes → Bytes → Result EncryptionError Bytes
  unfolding decrypt_bytes
  unwrap_dek wrapped kek = and_then (decrypt_bytes wrapped kek) of_key_size

  unfoldable pub encrypt_field : Bytes → String → Bytes → Bytes
  unfolding encrypt_bytes
  encrypt_field nonce plaintext dek = encrypt_bytes nonce (as_bytes plaintext) dek

  unfoldable pub decrypt_field : Bytes → Bytes → Result EncryptionError String
  unfolding decrypt_bytes
  decrypt_field blob dek =
      and_then (decrypt_bytes blob dek)
        (λ bytes. map_err EncryptionError.invalid_utf8 (from_utf8 bytes))

  -- The key is unwrapped with the old password and wrapped with the new one.
  unfoldable pub change_password :
      Bytes → String → String → Bytes → Bytes → Result EncryptionError Bytes
  unfolding unwrap_dek wrap_dek derive_kek
  change_password nonce old_password new_password salt wrapped_dek =
      and_then (unwrap_dek wrapped_dek (derive_kek old_password salt))
        (λ dek. ok (wrap_dek nonce dek (derive_kek new_password salt)))
