-- ===== src/Payroll.antt =====
-- Payroll: RichdaleAccounting/nexus-core/src/accounting/payroll.rs. Definitions first, then what is
-- proved about them.
mod Defs
mod Staff
mod Pay
mod Postings
mod Slips
mod Balanced
mod Processing
mod Tests
unfoldable pub use Defs.*
unfoldable pub use Staff.*
unfoldable pub use Pay.*
unfoldable pub use Postings.*
