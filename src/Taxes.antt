-- ===== src/Taxes.antt =====
-- Taxes: RichdaleAccounting/nexus-core/src/accounting/tax.rs. Definitions first, then what is proved
-- about them.
mod Defs
mod Jurisdictions
mod Filings
mod Brackets
mod Maps
mod Index
mod Tests
unfoldable pub use Defs.*
unfoldable pub use Jurisdictions.*
unfoldable pub use Filings.*
