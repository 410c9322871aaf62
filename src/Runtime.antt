-- ===== src/Runtime.antt =====
-- The workload of an Agent's runtime: `reconcileRuntime` of internal/controller/agent_controller.go and
-- what it assembles.
mod Script
pub mod Pod
pub mod Volumes
pub mod Workspace
pub mod Assembly
mod Examples
unfoldable pub use Pod.*
unfoldable pub use Volumes.*
unfoldable pub use Workspace.*
unfoldable pub use Assembly.*
