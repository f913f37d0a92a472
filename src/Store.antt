-- ===== src/Store.antt =====
-- The resource store that the service stands on: `dbstore.DBStore` of the wyrd library, with gorm
-- under it. It is not part of the repository, so it is an interface: the operations that the
-- service calls, and as laws what the service's own comments rely on.
mod Rows
pub mod Memory
pub mod Creation
unfoldable pub use Rows.*
use urth.Prelude.{ℕ, suc, String, Bool, ◌≡◌, ◌≢◌, Option, none, some, Time}
use urth.Types.{Labels, Result, Worker, Runner, WorkerContact}
use urth.Labels.{get_label}

-- The operations on results, workers and runners. A state is what the database holds.
pub record Database : Type 1 where
  pub State : Type 0
  -- The rows, as the database holds them.
  pub result_row : State → String → Option Result
  pub worker_row : State → String → Option Worker
  pub runner_row : State → String → Option Runner
  -- `store.GetByUID`.
  pub get_result : State → String → Fetch Result
  pub get_worker : State → String → Fetch Worker
  pub get_runner : State → String → Fetch Runner
  -- `store.Update(&entry, entry.UID, WithVersion(version))`.
  pub update_result : State → Result → ℕ → State × Write
  -- `presence.RecordContact(uid, at, via, leaving)`, its outcome unread.
  pub record_contact : State → String → Time → WorkerContact → Bool → State
  -- `manifest.MergeLabels`.
  pub merge_labels : Labels → Labels → Labels
  -- A read answers with the row, or fails.
  pub get_result_reads : (s : State) (uid : String) → Reads (get_result s uid) (result_row s uid)
  pub get_worker_reads : (s : State) (uid : String) → Reads (get_worker s uid) (worker_row s uid)
  pub get_runner_reads : (s : State) (uid : String) → Reads (get_runner s uid) (runner_row s uid)
  -- A row is addressed by its own UID.
  pub result_row_uid :
      (s : State) (uid : String) (r : Result) → result_row s uid ≡ some r → r.uid ≡ uid
  pub worker_row_uid :
      (s : State) (uid : String) (w : Worker) → worker_row s uid ≡ some w → w.uid ≡ uid
  -- The version guard: a write applies only to a row at that version, bumps it, and skips the
  -- fields that are zero in the entry.
  pub update_result_applied :
      (s : State) (e : Result) (v v' : ℕ)
      → (update_result s e v).1 ≡ applied v'
      → (r : Result) × (result_row s e.uid ≡ some r)
        × (r.version ≡ v)
        × (v' ≡ suc v)
        × (result_row (update_result s e v).0 e.uid ≡ some (stored r e (suc v)))
  pub update_result_other :
      (s : State) (e : Result) (v : ℕ) (uid : String)
      → uid ≢ e.uid
      → result_row (update_result s e v).0 uid ≡ result_row s uid
  -- A write that is rejected or fails changes no row, and only a row at another version, or none,
  -- makes it be rejected.
  pub update_result_rejected :
      (s : State) (e : Result) (v : ℕ) (uid : String)
      → (update_result s e v).1 ≡ rejected
      → result_row (update_result s e v).0 uid ≡ result_row s uid
  pub update_result_rejected_version :
      (s : State) (e r : Result) (v : ℕ)
      → (update_result s e v).1 ≡ rejected
      → result_row s e.uid ≡ some r
      → r.version ≢ v
  pub update_result_failed :
      (s : State) (e : Result) (v : ℕ) (uid : String)
      → (update_result s e v).1 ≡ failed_write
      → result_row (update_result s e v).0 uid ≡ result_row s uid
  -- A liveness report touches no result.
  pub record_contact_result :
      (s : State) (w : String) (at : Time) (via : WorkerContact) (leaving : Bool) (uid : String)
      → result_row (record_contact s w at via leaving) uid ≡ result_row s uid
  -- The labels merged last win.
  pub get_label_merge :
      (k : String) (a b : Labels)
      → get_label k (merge_labels a b) ≡ or_else (get_label k b) (get_label k a)
