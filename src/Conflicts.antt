-- ===== src/Conflicts.antt =====
-- Conflict resolution: RichdaleAccounting/nexus-core/src/edge/conflict.rs. Definitions first, then what is
-- proved about them.
mod Defs
mod Names
mod Log
mod Resolving
mod Invariant
mod Calls
mod Audit
mod Reading
mod Winners
mod Tests
unfoldable pub use Defs.*
unfoldable pub use Names.*
unfoldable pub use Log.*
unfoldable pub use Resolving.*
