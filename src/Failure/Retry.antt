-- ===== src/Failure/Retry.antt =====
-- `retryDispatchFailure` and `resolveDispatchFailure`. The random name of the new run is given.
use urth.Prelude.{
  String, Bool, true, false, not, ◌||◌, Option, none, some, [], ◌∷◌, ◌++◌, ◌=ₛ◌, if◌then◌else◌,
  Time, where_, length, ltb,
}
use urth.Types.{Result, Labels, pending, not_finished, is_zero, status_text}
use urth.Labels.{
  put_label, set_label, label_result_job_state, label_result_status, label_result_unschedulable,
  label_retry_of_result, label_retry_of_failure, label_dispatch_failure_resolved,
}
use urth.Store.{Database, failed, missing, found, failed_write, rejected, applied}
use urth.Store.Creation.{Creation}
use urth.Outbox.{OutboxTable, new_dispatch_outbox_entry}
use urth.Reconcile.{has_event, next_id}
use urth.Failure.Resource.{DispatchFailure}
use urth.Failure.Table.{FailureTable}
use urth.Failure.Recording.{Ledger, Faults}

pub data RetryAnswer : Type 0 where
  names_no_run run_is_gone no_snapshot : RetryAnswer
  failed_load failed_begin failed_create failed_enqueue failed_update failed_commit : RetryAnswer
  not_retried : RetryAnswer
  retried : DispatchFailure → Result → RetryAnswer

-- The labels that describe the state of a run.
abbrev pub is_state_label : String → Bool
is_state_label key =
    key =ₛ label_result_job_state
    || (key =ₛ label_result_status || key =ₛ label_result_unschedulable)

abbrev pub without_state : Labels → Labels
without_state [] = []
without_state ((k, v) ∷ labels) =
    let rest = without_state labels in if is_state_label k then rest else (k, v) ∷ rest

-- `retryLabels`.
unfoldable pub retry_labels : Result → DispatchFailure → Labels
unfolding put_label set_label
retry_labels original failure = put_label label_retry_of_failure failure.name (
    put_label label_retry_of_result original.uid
      (set_label label_result_job_state (status_text pending) (without_state original.labels)))

-- The run that a retry creates: what the stranded one was to execute, where it was placed.
unfoldable pub retry_of : String → Result → DispatchFailure → Result
unfolding retry_labels
retry_of name original failure = record {
  name = name;
  uid = "";
  version = 0;
  created_at = none;
  labels = retry_labels original failure;
  scenario_id = original.scenario_id;
  prob_kind = original.prob_kind;
  execution = original.execution;
  time_started = none;
  time_ended = none;
  status = pending;
  executor = record {
    runner_id = original.executor.runner_id;
    runner_name = original.executor.runner_name;
    worker_id = "";
    worker_name = "";
  };
  dispatch_id = "";
  deadline = 0;
  result = not_finished;
}

-- The insert of an entry for a run; nothing where the statement fails, or another entry has its
-- event.
unfoldable pub insert_dispatch : Bool → Result → Time → OutboxTable → Option OutboxTable
unfolding new_dispatch_outbox_entry
insert_dispatch fails r now table =
    let entry = new_dispatch_outbox_entry r now in
    if fails || ltb 0 (length (where_ (has_event entry.event_uid) table))
    then none
    else some
        (table ++ (record entry { id = next_id table; created_at = now; updated_at = now } ∷ []))

module _ (merge_labels : Labels → Labels → Labels) where
  -- `markResolved`.
  unfoldable pub mark_resolved : DispatchFailure → Time → DispatchFailure
  mark_resolved f at = record f {
    status = record f.status { resolved = true; resolved_at = some at };
    labels = merge_labels f.labels ((label_dispatch_failure_resolved, "true") ∷ []);
  }

  -- The failure as a retry updates it.
  unfoldable pub linked : DispatchFailure → Result → Bool → Time → DispatchFailure
  unfolding mark_resolved
  linked f retry resolve at =
      let f' = record f {
        status = record f.status { retry_result_uid = retry.uid; retry_result_name = retry.name };
      } in
      if resolve then mark_resolved f' at else f'

module _ (db : Database) (creation : Creation db) (table : FailureTable) where
  open db use {State, get_result, merge_labels}
  open creation use {create_result}
  open table use {Table, update}

  -- The transaction of a retry. Its last write is guarded by the version of the failure that the
  -- caller holds; where it does not apply, nothing remains of the new run.
  unfoldable pub retry_run :
      Faults
      → String
      → DispatchFailure
      → Result
      → Bool
      → Time
      → Ledger State Table
      → Ledger State Table × RetryAnswer
  unfolding retry_of insert_dispatch linked
  retry_run faults name f original resolve at w =
      if faults.begin_fails
      then (w, failed_begin)
      else elim (create_result w.runs (retry_of name original f)) [
        | none ↦ (w, failed_create)
        | some made ↦ elim (insert_dispatch faults.enqueue_fails made.1 at w.outbox) [
          | none ↦ (w, failed_enqueue)
          | some outbox ↦
              let f' = linked merge_labels f made.1 resolve at in
              let written = update w.failures f' f.version in
              elim written.1 [
                | failed_write ↦ (w, failed_update)
                | rejected ↦ (w, not_retried)
                | applied v ↦ if faults.commit_fails then (w, failed_commit) else (
                  record { runs = made.0; failures = written.0; outbox = outbox },
                  retried f' made.1,
                )
              ]
        ]
      ]

  unfoldable pub retry_dispatch_failure :
      Faults
      → String
      → DispatchFailure
      → Bool
      → Time
      → Ledger State Table
      → Ledger State Table × RetryAnswer
  unfolding retry_run
  retry_dispatch_failure faults name f resolve at w =
      if not (f.status.retry_result_uid =ₛ "")
      then (w, not_retried)
      else (if f.spec.result_uid =ₛ ""
          then (w, names_no_run)
          else elim (get_result w.runs f.spec.result_uid) [
            | failed ↦ (w, failed_load)
            | missing ↦ (w, run_is_gone)
            | found original ↦
                if is_zero original.execution
                then (w, no_snapshot)
                else retry_run faults name f original resolve at w
          ])

  -- `resolveDispatchFailure`: the failure as it stands, and whether this call resolved it; nothing
  -- where the write fails.
  unfoldable pub resolve_dispatch_failure :
      DispatchFailure → Time → Table → Table × Option (DispatchFailure × Bool)
  unfolding mark_resolved
  resolve_dispatch_failure f at t =
      if f.status.resolved
      then (t, some (f, false))
      else (let f' = mark_resolved merge_labels f at in
          let written = update t f' f.version in
          elim written.1 [
            | failed_write ↦ (written.0, none)
            | rejected ↦ (written.0, some (f', false))
            | applied v ↦ (written.0, some (f', true))
          ])
