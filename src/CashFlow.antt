-- ===== src/CashFlow.antt =====
-- The cash flow statement: RichdaleAccounting/nexus-core/src/accounting/cashflow.rs.
mod Defs
mod Effects
mod Totals
mod Tests
unfoldable pub use Defs.*
