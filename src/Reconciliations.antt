-- ===== src/Reconciliations.antt =====
-- Reconciliations: RichdaleAccounting/nexus-core/src/accounting/reconciliation.rs. Definitions first,
-- then what is proved about them.
mod Defs
mod Words
mod Matching
mod Processor
mod Optimal
mod Assignment
mod Scores
mod Marks
mod Accounts
mod Tests
unfoldable pub use Defs.*
unfoldable pub use Words.*
unfoldable pub use Matching.*
unfoldable pub use Processor.*
