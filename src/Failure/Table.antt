-- ===== src/Failure/Table.antt =====
-- The table of failures: reads by name, inserts, and updates guarded by the version. It is kept by
-- `dbstore.DBStore`, so it is an interface.
use urth.Prelude.{ℕ, suc, String, ◌||◌, ◌≡◌, Option, none, some}
use urth.Store.{Fetch, Reads, Write, applied, or_else, over_text, over_labels}
use urth.Failure.Resource.{DispatchFailure}

-- The row after a write of `e` over the row `r`; fields that are zero in `e` are skipped.
abbrev pub stored_failure : DispatchFailure → DispatchFailure → ℕ → DispatchFailure
stored_failure r e version = record r {
  version = version;
  labels = over_labels r.labels e.labels;
  status = record {
    resolved = r.status.resolved || e.status.resolved;
    resolved_at = or_else e.status.resolved_at r.status.resolved_at;
    retry_result_uid = over_text r.status.retry_result_uid e.status.retry_result_uid;
    retry_result_name = over_text r.status.retry_result_name e.status.retry_result_name;
  };
}

pub record FailureTable : Type 1 where
  pub Table : Type 0
  -- The rows, by their unique names and by their UIDs.
  pub named : Table → String → Option DispatchFailure
  pub failure_row : Table → String → Option DispatchFailure
  pub get_by_name : Table → String → Fetch DispatchFailure
  pub create : Table → DispatchFailure → Option (Table × DispatchFailure)
  pub update : Table → DispatchFailure → ℕ → Table × Write
  pub get_by_name_reads : (t : Table) (name : String) → Reads (get_by_name t name) (named t name)
  -- The name is unique, and the database assigns the UID and the version.
  pub create_named :
      (t : Table) (e : DispatchFailure) (made : Table × DispatchFailure)
      → create t e ≡ some made
      → (named t e.name ≡ none)
        × (named made.0 e.name ≡ some made.1)
        × (made.1 ≡ record e { uid = made.1.uid; version = made.1.version })
  pub update_applied :
      (t : Table) (e : DispatchFailure) (v v' : ℕ)
      → (update t e v).1 ≡ applied v'
      → (r : DispatchFailure) × (failure_row t e.uid ≡ some r)
        × (r.version ≡ v)
        × (v' ≡ suc v)
        × (failure_row (update t e v).0 e.uid ≡ some (stored_failure r e (suc v)))
