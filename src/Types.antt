-- ===== src/Types.antt =====
-- The resources of pkg/urth/types.go and pkg/urth/execution.go: runs (`Result`), workers and
-- runners. The metadata, spec and status of a resource stand in one record, under the Go names.
-- UIDs, names and tokens are texts; the payload of a prob and the text of a selector are opaque.
mod Snapshot
mod Lifecycle
unfoldable pub use Snapshot.*
pub use Lifecycle.*
