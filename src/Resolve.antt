-- ===== src/Resolve.antt =====
-- `resolveRefs`, `collect`, `dedupe` and `configHash` of internal/controller/agent_controller.go: one
-- pass over an Agent's references.
pub mod Targets
pub mod Pass
pub mod Hash
mod Examples
unfoldable pub use Targets.*
unfoldable pub use Pass.*
unfoldable pub use Hash.*
