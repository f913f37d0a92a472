-- ===== src/Outbox.antt =====
-- The dispatches that wait for publication, and the relay that publishes them: pkg/urth/outbox.go,
-- pkg/urth/outbox_store.go and pkg/urth/outbox_relay.go.
mod Table
mod Entry
mod Relay
unfoldable pub use Table.*
unfoldable pub use Entry.*
unfoldable pub use Relay.*
pub mod Leases
pub mod Backoff
pub mod Publication
