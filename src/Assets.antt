-- ===== src/Assets.antt =====
-- Fixed assets: RichdaleAccounting/nexus-core/src/accounting/assets.rs. Definitions first, then what is
-- proved about them.
mod Defs
mod Depreciating
mod Disposing
mod Balanced
mod Salvage
mod Sales
mod Tests
unfoldable pub use Defs.*
unfoldable pub use Depreciating.*
unfoldable pub use Disposing.*
