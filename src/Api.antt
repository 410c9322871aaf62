-- ===== src/Api.antt =====
-- The API types of api/v1alpha1: one record for each Go struct, an optional pointer as `Option`.
mod Common
mod Policies
pub mod Kinds
pub mod Agents
pub mod Class
pub use Common.*
pub use Policies.*
pub use Kinds.*
pub use Agents.*
unfoldable pub use Class.*
