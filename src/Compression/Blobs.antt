-- ===== src/Compression/Blobs.antt =====
-- What a blob stands for (RichdaleAccounting/nexus-core/src/edge/compression.rs).
use rich_aim_acct_inv.Prelude.{
  ℕ, ◌≡◌, ◌∙◌, ◌⊎◌, ◌↔◌, ◌+◌, ◌≤◌, ◌<◌, ◌==◌, refl, sym, inl, inr, none, List, [], ◌∷◌, ◌++◌,
  length, false, ltb, Bool-cases, Result-cases, Result, ok, err, All, arith, eq_self,
}
use rich_aim_acct_inv.Compression.{
  Codecs, CompressionError, CompressionStats, to_le_bytes, from_le_bytes, flag_uncompressed,
  flag_compressed, header_len, packed, compress_blob, original, verified, decompress_blob,
}
use rich_aim_acct_inv.Compression.Bytes.{from_le_bytes_lem, from_le_bytes-bytes}

abbrev pub IsByte : ℕ → Type 0
IsByte b = b < 256

-- The four bytes of a number, in front of a payload.
four_bytes :
    (n a b c d : ℕ) (payload : List ℕ)
    → IsByte a
    → IsByte b
    → IsByte c
    → IsByte d
    → n ≡ from_le_bytes a b c d
    → a ∷ b ∷ c ∷ d ∷ payload ≡ to_le_bytes n ++ payload
four_bytes n a b c d payload ha hb hc hd e =
    let (ea, eb, ec, ed) = from_le_bytes-bytes a b c d ha hb hc hd in
    rw e (λ i. ea i ∷ eb i ∷ ec i ∷ ed i ∷ payload)

module _ (k : Codecs) where
  open k use {crc32, crc32_u32, compress, decompress}

  -- The flag and the payload from which some bytes are recovered.
  abbrev pub Holds : ℕ → List ℕ → List ℕ → Type 0
  Holds flag payload bytes =
      ((flag ≡ flag_uncompressed) × (payload ≡ bytes))
      ⊎ ((flag ≡ flag_compressed) × (decompress payload none ≡ ok bytes))

  -- A flag, the checksum of the bytes in little-endian order, and the payload.
  abbrev pub StandsFor : List ℕ → List ℕ → Type 0
  StandsFor blob bytes =
      (flag : ℕ) × (payload : List ℕ) × (blob ≡ flag ∷ (to_le_bytes (crc32 bytes) ++ payload))
      × Holds flag payload bytes

  original-Holds :
      (flag : ℕ) (payload bytes : List ℕ)
      → original k flag payload ≡ ok bytes
      → Holds flag payload bytes
  unfolding original
  original-Holds flag payload bytes h = elim (Bool-cases (flag == flag_uncompressed)) [
    | inl raw ↦ inl (ground arith, ground arith)
    | inr other ↦ elim (Bool-cases (flag == flag_compressed)) [
      | inl packed ↦ inr (
        ground arith,
        elim (Result-cases (decompress payload none)) [
          | inl (b, e) ↦ let same : b ≡ bytes = ground arith in e ∙ (λ i. ok (same i))
          | inr (x, e) ↦ let no_way : ⊥ = ground arith in absurd no_way
        ],
      )
      | inr unknown ↦ let no_way : ⊥ = ground arith in absurd no_way
    ]
  ]

  Holds-original :
      (flag : ℕ) (payload bytes : List ℕ)
      → Holds flag payload bytes
      → original k flag payload ≡ ok bytes
  unfolding original
  Holds-original flag payload bytes (inl (f, p)) = rw f (λ i. ok (p i))
  Holds-original flag payload bytes (inr (f, p)) = rw (f, p) refl

  verified-ok :
      (crc : ℕ) (r : Result CompressionError (List ℕ)) (bytes : List ℕ)
      → verified k crc r ≡ ok bytes
      → (r ≡ ok bytes) × (crc32 bytes ≡ crc)
  unfolding verified
  verified-ok crc (err e) bytes h = let no_way : ⊥ = ground arith in absurd no_way
  verified-ok crc (ok b) bytes h = elim (Bool-cases (crc32 b == crc)) [
    | inl same ↦
        let it : b ≡ bytes = ground arith in
        let checked : crc32 b ≡ crc = ground arith in
        ((λ i. ok (it i)), (λ i. crc32 (sym it i)) ∙ checked)
    | inr differs ↦ let no_way : ⊥ = ground arith in absurd no_way
  ]

  decompress_blob_written :
      (flag : ℕ) (payload bytes : List ℕ)
      → Holds flag payload bytes
      → decompress_blob k (flag ∷ (to_le_bytes (crc32 bytes) ++ payload)) ≡ ok bytes
  unfolding decompress_blob verified
  decompress_blob_written flag payload bytes h =
      rw
        (
          from_le_bytes_lem (crc32 bytes) (crc32_u32 bytes),
          Holds-original flag payload bytes h,
          eq_self (crc32 bytes),
        )
        refl

  decompress_blob-StandsFor :
      (blob bytes : List ℕ)
      → All IsByte blob
      → decompress_blob k blob ≡ ok bytes
      → StandsFor blob bytes
  unfolding decompress_blob
  decompress_blob-StandsFor (flag ∷ a ∷ b ∷ c ∷ d ∷ payload) bytes (_, (ha, (hb, (hc, (hd, _)))))
        h =
      let (found, same) = verified-ok (from_le_bytes a b c d) (original k flag payload) bytes h in
      (
        flag,
        payload,
        (λ i. flag ∷ four_bytes (crc32 bytes) a b c d payload ha hb hc hd same i),
        original-Holds flag payload bytes found,
      )
  decompress_blob-StandsFor (flag ∷ a ∷ b ∷ c ∷ []) bytes v h =
      let no_way : ⊥ = ground arith in absurd no_way
  decompress_blob-StandsFor (flag ∷ a ∷ b ∷ []) bytes v h =
      let no_way : ⊥ = ground arith in absurd no_way
  decompress_blob-StandsFor (flag ∷ a ∷ []) bytes v h =
      let no_way : ⊥ = ground arith in absurd no_way
  decompress_blob-StandsFor (flag ∷ []) bytes v h = let no_way : ⊥ = ground arith in absurd no_way
  decompress_blob-StandsFor [] bytes v h = let no_way : ⊥ = ground arith in absurd no_way

  -- A blob of bytes is decompressed to some data exactly when it is a flag, then the checksum of
  -- that data in little-endian order, then a payload, which is the data itself under flag 0, or is
  -- decompressed to it under flag 1. So data with another checksum is never returned, nor anything
  -- for a blob that is too short or has an unknown flag.
  pub decompress_blob_iff :
      (blob bytes : List ℕ)
      → All IsByte blob
      → (decompress_blob k blob ≡ ok bytes) ↔ StandsFor blob bytes
  decompress_blob_iff blob bytes v = (
    decompress_blob-StandsFor blob bytes v,
    λ (flag, payload, written, h).
        (λ i. decompress_blob k (written i)) ∙ decompress_blob_written flag payload bytes h,
  )

  -- Data that lz4 does not make smaller, or fails on, comes back from its blob as it was.
  pub compress_blob-decompress_blob :
      (bytes : List ℕ) (s : CompressionStats)
      → ((c : List ℕ) → compress bytes false ≡ ok c → length bytes ≤ length c)
      → decompress_blob k (compress_blob k bytes s).0 ≡ ok bytes
  unfolding compress_blob packed
  compress_blob-decompress_blob bytes s larger = elim (Result-cases (compress bytes false)) [
    | inr (x, e) ↦ rw e (decompress_blob_written flag_uncompressed bytes bytes (inl (refl, refl)))
    | inl (c, e) ↦
        let at_least = larger c e in
        let not_smaller : ltb (length c) (length bytes) ≡ false = ground arith in
        rw (e, not_smaller)
          (decompress_blob_written flag_uncompressed bytes bytes (inl (refl, refl)))
  ]

  -- Whatever lz4 does, a blob is longer than its data by the header at most, and at least as long
  -- as the header.
  compress_blob_bounds :
      (bytes : List ℕ) (s : CompressionStats)
      → (header_len ≤ length (compress_blob k bytes s).0)
        × (length (compress_blob k bytes s).0 ≤ length bytes + header_len)
  unfolding compress_blob packed
  compress_blob_bounds bytes s = elim (Result-cases (compress bytes false)) [
    | inr (x, e) ↦ rw e (omega arith, omega arith)
    | inl (c, e) ↦ elim (Bool-cases (ltb (length c) (length bytes))) [
      | inl smaller ↦
          let less : length c < length bytes = ground arith in
          rw (e, smaller) (omega arith, omega arith)
      | inr larger ↦ rw (e, larger) (omega arith, omega arith)
    ]
  ]
