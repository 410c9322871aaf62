-- ===== src/Registry.antt =====
-- cmd/registry/main.go: the Registry that serves resolved configurations to runtimes.
pub mod Version
pub mod Hub
pub mod Watch
pub mod Views
pub mod Config
pub mod Server
mod Examples
unfoldable pub use Version.*
unfoldable pub use Hub.*
unfoldable pub use Watch.*
