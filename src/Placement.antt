-- ===== src/Placement.antt =====
-- pkg/urth/placement.go and pkg/urth/placement_store.go: which runner, if any, takes a run.
mod Capacity
mod Choice
unfoldable pub use Capacity.*
unfoldable pub use Choice.*
pub mod Counts
pub mod Ranking
pub mod Draw
pub mod Agreement
