-- ===== src/Encryption.antt =====
-- Encryption of fields at rest: RichdaleAccounting/nexus-core/src/edge/encryption.rs.
mod Defs
mod Blobs
mod Passwords
mod Fields
mod Json
mod Texts
mod Tests
unfoldable pub use Defs.*
