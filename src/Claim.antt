-- ===== src/Claim.antt =====
-- The claim of a dispatched run: pkg/urth/claim.go, pkg/urth/worker_session.go and `ClaimRun` of
-- pkg/urth/service.go.
mod Disposition
mod Session
mod Run
pub mod Checks
pub mod Admission
pub mod Race
pub mod Retry
pub mod Refusals
pub mod Frame
unfoldable pub use Disposition.*
unfoldable pub use Session.*
unfoldable pub use Run.*
