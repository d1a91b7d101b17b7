-- ===== src/Budgets.antt =====
-- Budgets against what was booked: RichdaleAccounting/nexus-core/src/accounting/budget.rs. Definitions
-- first, then what is proved about them.
mod Defs
mod Totals
mod Actuals
mod Tests
unfoldable pub use Defs.*
