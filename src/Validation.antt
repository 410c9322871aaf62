-- ===== src/Validation.antt =====
-- api/v1alpha1/validation.go: the structural checks that webhooks and controllers share. An error
-- is its text, and nil is `none`.
pub mod Names
pub mod Volumes
pub mod Agents
pub mod Kinds
mod Examples
unfoldable pub use Names.*
unfoldable pub use Volumes.*
unfoldable pub use Agents.*
unfoldable pub use Kinds.*
