-- ===== src/Ap.antt =====
-- Accounts payable: RichdaleAccounting/nexus-core/src/accounting/ap.rs. Definitions first, then what
-- is proved about them.
mod Defs
mod Entering
mod Paying
mod Voiding
pub mod Cases
mod Tests
pub mod Postings
pub mod Outstanding
pub mod Calls
pub mod Invariant
unfoldable pub use Defs.*
unfoldable pub use Entering.*
unfoldable pub use Paying.*
unfoldable pub use Voiding.*
