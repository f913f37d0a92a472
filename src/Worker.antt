-- ===== src/Worker.antt =====
-- pkg/worker: what a worker does with a job message that the broker delivers to it, from the
-- unread envelope to the acknowledgement and the execution.
mod Budget
mod Envelope
mod Handle
mod InFlight
unfoldable pub use Budget.*
unfoldable pub use Envelope.*
unfoldable pub use Handle.*
unfoldable pub use InFlight.*
pub mod Lease
pub mod Handshake
pub mod Messages
pub mod Slots
pub mod EndToEnd
