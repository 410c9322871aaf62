-- ===== src/Reconcile.antt =====
-- The `AgentReconciler` of internal/controller/agent_controller.go: one pass over an Agent, from its
-- validation to the status that it writes.
pub mod Workloads
pub mod Fixtures
pub mod Peers
pub mod Pass
mod Examples
unfoldable pub use Workloads.*
unfoldable pub use Peers.*
unfoldable pub use Pass.*
