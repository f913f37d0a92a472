-- ===== src/Reconcile.antt =====
-- pkg/urth/reconcile_store.go: the lease that lets one reconciler scan at a time.
mod ScanLease
mod Queries
mod Repairs
mod Passes
mod Sweep
unfoldable pub use ScanLease.*
unfoldable pub use Queries.*
unfoldable pub use Repairs.*
unfoldable pub use Passes.*
unfoldable pub use Sweep.*
pub mod Exclusion
pub mod Evolution
mod Untouched
pub mod Refinement
pub mod Withdrawal
pub mod Expiry
pub mod Overdue
pub mod Settlement
pub mod Silence
pub mod Memory
