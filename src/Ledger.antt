-- ===== src/Ledger.antt =====
-- The ledger: RichdaleAccounting/nexus-core/src/accounting/ledger.rs. Definitions first, then what
-- is proved about them.
mod Defs
mod Chart
mod Posting
mod Reports
pub mod Validity
pub mod Outcome
pub mod Equation
pub mod Numbers
mod Tests
pub mod Reachable
pub mod Statements
pub mod Balances
unfoldable pub use Defs.*
unfoldable pub use Chart.*
unfoldable pub use Posting.*
unfoldable pub use Reports.*
