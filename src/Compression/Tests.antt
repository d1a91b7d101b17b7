-- ===== src/Compression/Tests.antt =====
-- Blobs with a code that writes a byte and how often it stands there
-- (RichdaleAccounting/nexus-core/src/edge/compression.rs).
use rich_aim_acct_inv.Prelude.{
  ℕ, zero, suc, ◌≡◌, ◌↔◌, ◌%◌, refl, List, [], ◌∷◌, length, String, Result, ok, err, arith,
}
use rich_aim_acct_inv.Compression.{
  Codecs, CompressionError, CompressionStats, compress_blob, decompress_blob,
}
use rich_aim_acct_inv.Compression.Blobs.{
  StandsFor, decompress_blob_iff, compress_blob-decompress_blob,
}

abbrev repeated : ℕ → ℕ → List ℕ
repeated x zero = []
repeated x (suc n) = x ∷ repeated x n

abbrev shortened : List ℕ → Result String (List ℕ)
shortened [] = err "empty"
shortened (x ∷ xs) = ok (x ∷ length xs ∷ [])

abbrev lengthened : List ℕ → Result String (List ℕ)
lengthened (x ∷ n ∷ []) = ok (x ∷ repeated x n)
lengthened (x ∷ n ∷ y ∷ ys) = err "too long"
lengthened (x ∷ []) = err "too short"
lengthened [] = err "too short"

abbrev runs : Codecs
runs = record {
  crc32 = λ bytes. length bytes % 4294967296;
  crc32_u32 = λ bytes. omega arith;
  compress = λ bytes sized. shortened bytes;
  decompress = λ bytes size. lengthened bytes;
}

abbrev no_stats : CompressionStats
no_stats = record { original_bytes = 0; compressed_bytes = 0; blob_count = 0 }

compressed : compress_blob runs (9 ∷ 9 ∷ 9 ∷ []) no_stats ≡ (
  1 ∷ 3 ∷ 0 ∷ 0 ∷ 0 ∷ 9 ∷ 2 ∷ [],
  record { original_bytes = 3; compressed_bytes = 7; blob_count = 1 },
)
unfolding compress_blob
compressed = refl

refused :
    (decompress_blob runs (2 ∷ 1 ∷ 0 ∷ 0 ∷ 0 ∷ 9 ∷ []) ≡ err CompressionError.invalid_format)
    × (decompress_blob runs (0 ∷ 2 ∷ 0 ∷ 0 ∷ 0 ∷ 9 ∷ []) ≡ err CompressionError.checksum_mismatch)
    × (decompress_blob runs (0 ∷ 2 ∷ 0 ∷ 0 ∷ []) ≡ err CompressionError.invalid_format)
unfolding decompress_blob
refused = (refl, refl, refl)

decompress_blob_iff_example :
    (decompress_blob runs (1 ∷ 3 ∷ 0 ∷ 0 ∷ 0 ∷ 9 ∷ 2 ∷ []) ≡ ok (9 ∷ 9 ∷ 9 ∷ []))
    ↔ StandsFor runs (1 ∷ 3 ∷ 0 ∷ 0 ∷ 0 ∷ 9 ∷ 2 ∷ []) (9 ∷ 9 ∷ 9 ∷ [])
decompress_blob_iff_example =
    decompress_blob_iff runs (1 ∷ 3 ∷ 0 ∷ 0 ∷ 0 ∷ 9 ∷ 2 ∷ []) (9 ∷ 9 ∷ 9 ∷ []) (
      omega arith,
      (omega arith, (omega arith, (omega arith, (omega arith, (omega arith, (omega arith, tt)))))),
    )

compress_blob-decompress_blob_example :
    decompress_blob runs (compress_blob runs (9 ∷ 8 ∷ []) no_stats).0 ≡ ok (9 ∷ 8 ∷ [])
compress_blob-decompress_blob_example =
    compress_blob-decompress_blob runs (9 ∷ 8 ∷ []) no_stats (λ c h. ground arith)
