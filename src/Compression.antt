-- ===== src/Compression.antt =====
-- Blobs of data, compressed and with a checksum: RichdaleAccounting/nexus-core/src/edge/compression.rs.
mod Defs
mod Bytes
mod Blobs
mod Tests
unfoldable pub use Defs.*
