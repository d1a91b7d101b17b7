-- ===== src/Agents.antt =====
-- Agents, tasks and their dispatch: RichdaleAccounting/nexus-core/src/agents. Definitions first, then
-- what is proved about them.
mod Tasks
mod Status
mod Orchestrator
mod Dispatch
mod Order
mod Steps
mod Conservation
mod Retries
mod Draining
mod Bookkeeping
mod Counts
mod Tests
unfoldable pub use Tasks.*
unfoldable pub use Status.*
unfoldable pub use Orchestrator.*
unfoldable pub use Dispatch.*
