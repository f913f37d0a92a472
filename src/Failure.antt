-- ===== src/Failure.antt =====
-- Dispatches that failed for good: pkg/urth/dispatch_failure.go and
-- pkg/urth/dispatch_failure_store.go.
mod Resource
mod Table
mod Recording
mod Retry
mod Sources
unfoldable pub use Resource.*
unfoldable pub use Table.*
unfoldable pub use Recording.*
unfoldable pub use Retry.*
unfoldable pub use Sources.*
pub mod Authority
pub mod Once
pub mod Stranding
mod Attempt
pub mod Rerun
pub mod Memory
