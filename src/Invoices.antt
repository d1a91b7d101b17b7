-- ===== src/Invoices.antt =====
-- Invoices and their payments: RichdaleAccounting/nexus-core/src/accounting/invoice.rs. Definitions
-- first, then what is proved about them.
mod Defs
mod Creating
mod Paying
pub mod Cases
mod Invariant
mod Stored
mod Postings
mod Issuing
mod Tests
unfoldable pub use Defs.*
unfoldable pub use Creating.*
unfoldable pub use Paying.*
