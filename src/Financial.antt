-- ===== src/Financial.antt =====
-- The financial data model: RichdaleAccounting/nexus-core/src/database/financial.rs.
mod Accounts
mod Entries
unfoldable pub use Accounts.*
unfoldable pub use Entries.*
