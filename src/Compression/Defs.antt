-- ===== src/Compression/Defs.antt =====
-- Blobs of data, compressed and with a checksum (RichdaleAccounting/nexus-core/src/edge/compression.rs).
-- Bytes are numbers below 256. The three counters are the state that a call of compress_blob changes.
use Prim.Native.Nat.{◌^◌}
use rich_aim_acct_inv.Prelude.{
  ℕ, ◌+◌, ◌*◌, ◌/◌, ◌%◌, ◌<◌, ◌==◌, ltb, if◌then◌else◌, Option, none, List, [], ◌∷◌, ◌++◌, length,
  String, Bool, false, Result, ok, err,
}

-- What `crc32fast` and `lz4::block` do. `compress` takes whether to put the size in front, and
-- `decompress` the size, or none where it stands in front.
pub record Codecs : Type 0 where
  pub crc32 : List ℕ → ℕ
  pub crc32_u32 : (bytes : List ℕ) → crc32 bytes < 4294967296
  pub compress : List ℕ → Bool → Result String (List ℕ)
  pub decompress : List ℕ → Option ℕ → Result String (List ℕ)

pub data CompressionError : Type 0 where
  invalid_format checksum_mismatch : CompressionError
  decompression_error : String → CompressionError

pub record CompressionStats : Type 0 where
  pub original_bytes : ℕ
  pub compressed_bytes : ℕ
  pub blob_count : ℕ

abbrev pub flag_uncompressed : ℕ
flag_uncompressed = 0

abbrev pub flag_compressed : ℕ
flag_compressed = 1

abbrev pub header_len : ℕ
header_len = 5

-- `u32::to_le_bytes`, and `u32::from_le_bytes`
abbrev pub to_le_bytes : ℕ → List ℕ
to_le_bytes n = n % 256 ∷ n / 256 % 256 ∷ n / 65536 % 256 ∷ n / 16777216 % 256 ∷ []

abbrev pub from_le_bytes : ℕ → ℕ → ℕ → ℕ → ℕ
from_le_bytes a b c d = a + 256 * b + 65536 * c + 16777216 * d

-- `fetch_add` on an AtomicU64 wraps around.
abbrev pub fetch_add : ℕ → ℕ → ℕ
fetch_add counter n = (counter + n) % 2 ^ 64

abbrev pub counted : List ℕ → List ℕ → CompressionStats → CompressionStats
counted bytes blob s = record {
  original_bytes = fetch_add s.original_bytes (length bytes);
  compressed_bytes = fetch_add s.compressed_bytes (length blob);
  blob_count = fetch_add s.blob_count 1;
}

-- The flag and the payload: the compressed bytes only if they are fewer.
unfoldable pub packed : List ℕ → Result String (List ℕ) → ℕ × List ℕ
packed bytes (err e) = (flag_uncompressed, bytes)
packed bytes (ok c) =
    if ltb (length c) (length bytes) then (flag_compressed, c) else (flag_uncompressed, bytes)

module _ (k : Codecs) where
  open k use {crc32, compress, decompress}

  abbrev pub blob_of : List ℕ → ℕ × List ℕ → List ℕ
  blob_of bytes (flag, payload) = flag ∷ (to_le_bytes (crc32 bytes) ++ payload)

  unfoldable pub compress_blob : List ℕ → CompressionStats → List ℕ × CompressionStats
  unfolding packed
  compress_blob bytes s =
      let blob = blob_of bytes (packed bytes (compress bytes false)) in (blob, counted bytes blob s)

  -- The payload by its flag.
  unfoldable pub original : ℕ → List ℕ → Result CompressionError (List ℕ)
  original flag payload =
      if flag == flag_uncompressed
      then ok payload
      else if flag == flag_compressed
      then elim (decompress payload none) [
        | ok bytes ↦ ok bytes
        | err e ↦ err (CompressionError.decompression_error e)
      ]
      else err CompressionError.invalid_format

  -- Data whose checksum is not the stored one is withheld.
  unfoldable pub verified : ℕ → Result CompressionError (List ℕ) → Result CompressionError (List ℕ)
  verified crc (err e) = err e
  verified crc (ok bytes) =
      if crc32 bytes == crc then ok bytes else err CompressionError.checksum_mismatch

  unfoldable pub decompress_blob : List ℕ → Result CompressionError (List ℕ)
  unfolding original verified
  decompress_blob (flag ∷ a ∷ b ∷ c ∷ d ∷ payload) =
      verified (from_le_bytes a b c d) (original flag payload)
  decompress_blob (flag ∷ a ∷ b ∷ c ∷ []) = err CompressionError.invalid_format
  decompress_blob (flag ∷ a ∷ b ∷ []) = err CompressionError.invalid_format
  decompress_blob (flag ∷ a ∷ []) = err CompressionError.invalid_format
  decompress_blob (flag ∷ []) = err CompressionError.invalid_format
  decompress_blob [] = err CompressionError.invalid_format
