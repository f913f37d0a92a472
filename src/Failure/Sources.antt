-- ===== src/Failure/Sources.antt =====
-- Who records failures: workers (`Report` of pkg/urth/service.go), the relay
-- (pkg/urth/undeliverable.go) and the advisories of the broker (pkg/urth/dispatch_advisory.go).
use Prim.Native.String.{◌++◌ as ◌+ₛ◌}
use urth.Prelude.{
  ℕ, String, Bool, Option, none, some, [], ◌∷◌, ◌=ₛ◌, ◌==◌, ltb, if◌then◌else◌, Time,
}
use urth.Types.{Worker, Runner}
use urth.Labels.{reason_no_eligible_runner}
use urth.Store.{Database, failed, missing, found}
use urth.Claim.{ClaimDisposition, unavailable, forbidden, ok, err, SessionClaims, resolve_session}
use urth.Outbox.{OutboxEntry, OutboxTable, decimal}
use urth.Failure.Resource.{
  DispatchFailureSpec, DispatchFailure, InvalidFailure, validate_failure, max_delivery_exhausted,
  undeliverable_dispatch,
}
use urth.Failure.Table.{FailureTable}
use urth.Failure.Recording.{
  Ledger, Faults, RecordAnswer, invalid, recorded, strand_run_tx, record_dispatch_failure,
}

-- `ReportDispatchFailureRequest`.
pub record ReportRequest : Type 0 where
  pub reason : String
  pub event_uid : String
  pub dispatch_id : String
  pub result_uid : String
  pub result_version : ℕ
  pub deliveries : ℕ
  pub detail : String

pub data ReportAnswer : Type 0 where
  refused : ClaimDisposition → ReportAnswer
  malformed : InvalidFailure → ReportAnswer
  reported : DispatchFailure → ReportAnswer

abbrev pub report_answer : RecordAnswer → ReportAnswer
report_answer (invalid why) = malformed why
report_answer (recorded e b) = reported e
report_answer _ = refused unavailable

-- How a sink settled what it was told.
pub data SinkAnswer : Type 0 where
  settled unsettled bad_advisory : SinkAnswer

abbrev pub sink_answer : RecordAnswer → SinkAnswer
sink_answer (recorded e b) = settled
sink_answer _ = unsettled

abbrev pub reporter_worker : String
reporter_worker = "worker"

abbrev pub reporter_control_plane : String
reporter_control_plane = "control-plane"

pub record DispatchAdvisory : Type 0 where
  pub stream_sequence : ℕ
  pub deliveries : ℕ
  pub channel : String
  pub observed_at : Time

-- The entry that was published last at a sequence: `ORDER BY id DESC LIMIT 1`.
unfoldable pub published_at_sequence : ℕ → OutboxTable → Option OutboxEntry
published_at_sequence sequence [] = none
published_at_sequence sequence (e ∷ es) =
    let rest = published_at_sequence sequence es in
    if e.published_seq == sequence
    then elim rest [ none ↦ some e | some later ↦ if ltb e.id later.id then some later else some e ]
    else rest

-- What the control plane records of an entry.
abbrev pub entry_failure : OutboxEntry → String → ℕ → String → Time → DispatchFailureSpec
entry_failure e reason deliveries detail at = record {
  schema_version = 0;
  reason = reason;
  event_uid = e.event_uid;
  dispatch_id = e.event_uid;
  result_uid = e.result_uid;
  result_version = e.result_version;
  scenario_name = e.scenario_name;
  runner_uid = e.runner_uid;
  reported_by = reporter_control_plane;
  worker_uid = "";
  deliveries = deliveries;
  detail = detail;
  occurred_at = at;
}

module _ (db : Database) (table : FailureTable) where
  open db use {State, get_result, get_runner}
  open table use {Table}

  -- The name of the scenario of a run, where the run can be read.
  unfoldable pub scenario_name_of : State → String → String
  scenario_name_of s uid = if uid =ₛ "" then "" else elim (get_result s uid) [
    | failed ↦ ""
    | missing ↦ ""
    | found r ↦ r.execution.scenario_name
  ]

  -- The name of a runner, which is only a label.
  unfoldable pub runner_name_of : State → String → String
  runner_name_of s uid =
      if uid =ₛ ""
      then ""
      else elim (get_runner s uid) [ failed ↦ "" | missing ↦ "" | found r ↦ r.name ]

  -- The identity stands in the session, what happened in the request.
  unfoldable pub reported_spec :
      State → Worker → Runner → ReportRequest → Time → DispatchFailureSpec
  unfolding scenario_name_of
  reported_spec s worker runner request now = record {
    schema_version = 0;
    reason = request.reason;
    event_uid = request.event_uid;
    dispatch_id = request.dispatch_id;
    result_uid = request.result_uid;
    result_version = request.result_version;
    scenario_name = scenario_name_of s request.result_uid;
    runner_uid = runner.uid;
    reported_by = reporter_worker;
    worker_uid = worker.uid;
    deliveries = request.deliveries;
    detail = request.detail;
    occurred_at = now;
  }

  -- `Report`; the parser of sessions is given.
  unfoldable pub report :
      (String → Option SessionClaims)
      → (Ledger State Table → Ledger State Table)
      → Faults
      → String
      → ReportRequest
      → Time
      → Ledger State Table
      → Ledger State Table × ReportAnswer
  unfolding validate_failure resolve_session reported_spec record_dispatch_failure
  report parse_session between faults session request now w = elim (parse_session session) [
    | none ↦ (w, refused forbidden)
    | some claims ↦ elim (validate_failure request.reason request.event_uid) [
      | some why ↦ (w, malformed why)
      | none ↦ elim (resolve_session db w.runs claims) [
        | err d ↦ (w, refused d)
        | ok (worker, runner) ↦
            let (w', answer) =
              record_dispatch_failure db table between faults
                (reported_spec w.runs worker runner request now) runner.name now w in
            (w', report_answer answer)
      ]
    ]
  ]

  -- `strandUnplaced`: no record, the run alone says that nothing could take it.
  unfoldable pub strand_unplaced :
      Faults → OutboxEntry → Time → Ledger State Table → Ledger State Table × SinkAnswer
  unfolding strand_run_tx
  strand_unplaced faults e now w =
      if e.result_uid =ₛ ""
      then (w, settled)
      else (if faults.begin_fails
          then (w, unsettled)
          else elim (strand_run_tx db w.runs e.result_uid e.result_version reason_no_eligible_runner
              now) [
                | none ↦ (w, unsettled)
                | some runs ↦
                    if faults.commit_fails
                    then (w, unsettled)
                    else (record w { runs = runs }, settled)
              ])

  -- `RecordUndeliverable`; a cause is a text, and whether it is that no runner was assigned.
  unfoldable pub record_undeliverable :
      (Ledger State Table → Ledger State Table)
      → Faults
      → OutboxEntry
      → Bool
      → String
      → Time
      → Ledger State Table
      → Ledger State Table × SinkAnswer
  unfolding strand_unplaced runner_name_of record_dispatch_failure
  record_undeliverable between faults e is_unplaced cause now w =
      if is_unplaced
      then strand_unplaced faults e now w
      else (let (w', answer) =
            record_dispatch_failure db table between faults
              (entry_failure e undeliverable_dispatch 0
                ("the dispatch could not be published: " +ₛ cause) now)
              (runner_name_of w.runs e.runner_uid) now w in
          (w', sink_answer answer))

  -- `RecordMaxDelivery`; `lookup_fails` is whether the query on the outbox does.
  unfoldable pub record_max_delivery :
      (Ledger State Table → Ledger State Table)
      → Faults
      → Bool
      → DispatchAdvisory
      → Time
      → Ledger State Table
      → Ledger State Table × SinkAnswer
  unfolding published_at_sequence runner_name_of record_dispatch_failure decimal
  record_max_delivery between faults lookup_fails advisory now w =
      if advisory.stream_sequence == 0
      then (w, bad_advisory)
      else (if lookup_fails
          then (w, unsettled)
          else elim (published_at_sequence advisory.stream_sequence w.outbox) [
            | none ↦ (w, settled)
            | some e ↦
                let at = if advisory.observed_at == 0 then now else advisory.observed_at in
                let detail =
                  "the broker stopped redelivering after "
                  +ₛ decimal advisory.deliveries
                  +ₛ " attempts on "
                  +ₛ advisory.channel in
                let (w', answer) =
                  record_dispatch_failure db table between faults
                    (entry_failure e max_delivery_exhausted advisory.deliveries detail at)
                    (runner_name_of w.runs e.runner_uid) now w in
                (w', sink_answer answer)
          ])
