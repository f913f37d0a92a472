-- ===== src/Failure/Recording.antt =====
-- `recordDispatchFailure`, `strandRun` and `failRun`. What fails in a transaction leaves no trace.
use urth.Prelude.{
  ℕ, String, Bool, true, false, not, ◌&&◌, Option, none, some, [], ◌∷◌, ◌=ₛ◌, ◌==◌, if◌then◌else◌,
  Time,
}
use urth.Types.{Labels, Result, errored, finished_error, is_pending, status_text, run_status_text}
use urth.Labels.{label_result_job_state, label_result_status, label_result_unschedulable}
use urth.Store.{Database, failed, missing, found, failed_write, rejected, applied}
use urth.Outbox.{OutboxTable}
use urth.Failure.Resource.{
  DispatchFailureSpec, DispatchFailureStatus, DispatchFailure, InvalidFailure, validate_failure,
  truncate_detail, dispatch_failure_name, dispatch_failure_labels,
}
use urth.Failure.Table.{FailureTable}

abbrev pub dispatch_failure_spec_version : ℕ
dispatch_failure_spec_version = 1

-- What the functions of this component work on.
pub record Ledger (S T : Type 0) : Type 0 where
  pub runs : S
  pub failures : T
  pub outbox : OutboxTable

-- Which statements of a transaction fail.
pub record Faults : Type 0 where
  pub begin_fails : Bool
  pub enqueue_fails : Bool
  pub commit_fails : Bool

pub data RecordAnswer : Type 0 where
  invalid : InvalidFailure → RecordAnswer
  failed_lookup failed_begin failed_strand unrecorded : RecordAnswer
  recorded : DispatchFailure → Bool → RecordAnswer

-- The specification as it is stored.
abbrev pub completed_spec : DispatchFailureSpec → Time → DispatchFailureSpec
completed_spec spec now = record spec {
  schema_version = dispatch_failure_spec_version;
  detail = truncate_detail spec.detail;
  occurred_at = if spec.occurred_at == 0 then now else spec.occurred_at;
}

abbrev pub open_status : DispatchFailureStatus
open_status = record {
  resolved = false;
  resolved_at = none;
  retry_result_uid = "";
  retry_result_name = "";
}

abbrev pub new_failure : DispatchFailureSpec → String → Time → DispatchFailure
new_failure spec runner_name now = record {
  name = dispatch_failure_name spec.event_uid spec.reason;
  uid = "";
  version = 0;
  labels = dispatch_failure_labels (completed_spec spec now) runner_name;
  spec = completed_spec spec now;
  status = open_status;
}

abbrev pub stranded_labels : String → Labels
stranded_labels reason =
    (label_result_job_state, status_text errored)
    ∷ (label_result_status, run_status_text finished_error)
    ∷ (label_result_unschedulable, reason)
    ∷ []

module _ (db : Database) where
  open db use {State, get_result, update_result, merge_labels}

  -- `failRun`.
  unfoldable pub fail_run : Result → String → Time → Result
  fail_run r reason at = record r {
    status = errored;
    result = finished_error;
    time_ended = some at;
    labels = merge_labels r.labels (stranded_labels reason);
  }

  -- The dispatch was for another version than that of the row; 0 stands for any.
  abbrev pub is_superseded : ℕ → Result → Bool
  is_superseded version r = not (version == 0) && not (version == r.version)

  -- `strandRunTx`, inside a transaction; nothing where it fails.
  unfoldable pub strand_run_tx : State → String → ℕ → String → Time → Option State
  unfolding fail_run
  strand_run_tx s uid version reason now = if uid =ₛ "" then some s else elim (get_result s uid) [
    | failed ↦ none
    | missing ↦ some s
    | found r ↦
        if not (is_pending r.status)
        then some s
        else (if is_superseded version r
            then some s
            else (let written = update_result s (fail_run r reason now) r.version in
                elim written.1 [
                  | failed_write ↦ none
                  | rejected ↦ some s
                  | applied v ↦ some written.0
                ]))
  ]

  module _ (table : FailureTable) where
    open table use {Table, get_by_name, create}

    -- The second look, after an insert or a commit that failed.
    unfoldable pub look_again : String → Ledger State Table → Ledger State Table × RecordAnswer
    look_again name w = elim (get_by_name w.failures name) [
      | failed ↦ (w, unrecorded)
      | missing ↦ (w, unrecorded)
      | found e ↦ (w, recorded e false)
    ]

    -- The transaction, which other reporters may run before.
    unfoldable pub record_new :
        Faults
        → DispatchFailureSpec
        → String
        → Time
        → Ledger State Table
        → Ledger State Table × RecordAnswer
    unfolding look_again strand_run_tx dispatch_failure_name dispatch_failure_labels truncate_detail
    record_new faults spec runner_name now w =
        let entry = new_failure spec runner_name now in
        if faults.begin_fails then (w, failed_begin) else elim (create w.failures entry) [
          | none ↦ look_again entry.name w
          | some made ↦
              elim (strand_run_tx w.runs spec.result_uid spec.result_version spec.reason now) [
                | none ↦ (w, failed_strand)
                | some runs ↦
                    if faults.commit_fails
                    then look_again entry.name w
                    else (record w { runs = runs; failures = made.0 }, recorded made.1 true)
              ]
        ]

    -- `between` is what others do between the lookup and the transaction.
    unfoldable pub record_dispatch_failure :
        (Ledger State Table → Ledger State Table)
        → Faults
        → DispatchFailureSpec
        → String
        → Time
        → Ledger State Table
        → Ledger State Table × RecordAnswer
    unfolding validate_failure record_new dispatch_failure_name
    record_dispatch_failure between faults spec runner_name now w =
        elim (validate_failure spec.reason spec.event_uid) [
          | some why ↦ (w, invalid why)
          | none ↦
              elim (get_by_name w.failures (dispatch_failure_name spec.event_uid spec.reason)) [
                | failed ↦ (w, failed_lookup)
                | found e ↦ (w, recorded e false)
                | missing ↦ record_new faults spec runner_name now (between w)
              ]
        ]
