-- ===== src/Compression/Bytes.antt =====
-- A number of 32 bits and its four bytes (RichdaleAccounting/nexus-core/src/edge/compression.rs).
use rich_aim_acct_inv.Prelude.{ℕ, ◌/◌, ◌%◌, ◌<◌, ◌≡◌, arith}
use rich_aim_acct_inv.Compression.{from_le_bytes}

pub from_le_bytes_lem :
    (n : ℕ)
    → n < 4294967296
    → from_le_bytes (n % 256) (n / 256 % 256) (n / 65536 % 256) (n / 16777216 % 256) ≡ n
from_le_bytes_lem n h = omega (arith, h)

-- The bytes of the number that four bytes stand for.
pub from_le_bytes-bytes :
    (a b c d : ℕ)
    → a < 256
    → b < 256
    → c < 256
    → d < 256
    → (a ≡ from_le_bytes a b c d % 256)
      × (b ≡ from_le_bytes a b c d / 256 % 256)
      × (c ≡ from_le_bytes a b c d / 65536 % 256)
      × (d ≡ from_le_bytes a b c d / 16777216 % 256)
from_le_bytes-bytes a b c d ha hb hc hd = (omega arith, omega arith, omega arith, omega arith)
