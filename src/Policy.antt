-- ===== src/Policy.antt =====
-- api/v1alpha1/policy_merge.go and skill_scope.go: what a set of Policies and ToolPolicies means.
pub mod Access
pub mod Merge
pub mod Rules
pub mod Violations
pub mod Skills
mod Examples
unfoldable pub use Access.*
unfoldable pub use Merge.*
unfoldable pub use Rules.*
unfoldable pub use Violations.*
unfoldable pub use Skills.*
