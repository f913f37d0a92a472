-- ===== src/Tests/Failures.antt =====
-- The dispatch of the run of the small fleet fails, and the run is tried again; a scenario is run.
use urth.Prelude.{◌⊎◌, refl, ◌≡◌, ◌≢◌, arith, true, false, Option, none, some, []}
use urth.Types.{is_zero, Result, Scenario, errored, finished_error}
use urth.Store.{found}
use urth.Store.Memory.{memory, Tables, result_at, read, update, write}
use urth.Placement.{unplaced, no_eligible_runner}
use urth.Failure.Authority.{IsVouchedFor, report-IsVouchedFor}
use urth.Failure.{
  ReportRequest, report, DispatchFailureSpec, DispatchFailure, Ledger, Faults, recorded, retried,
  policy_refused, new_failure, record_dispatch_failure, retry_dispatch_failure, linked, retry_of,
}
use urth.Failure.Once.{record_dispatch_failure-once}
use urth.Failure.Stranding.{IsReportOutcome, record_dispatch_failure-IsReportOutcome}
use urth.Failure.Rerun.{IsRerun, retry_dispatch_failure-once}
use urth.Failure.Memory.{
  one_row, inserts, registered, inserted, row_where, insert_row, update_row, insert_result,
}
use urth.Schedule.{Registry, create_run}
use urth.Schedule.Dispatching.{IsCreateOutcome, create_run-IsCreateOutcome}
use urth.Tests.Fleet.{claims_of, tables, waiting, prob}

abbrev spec : DispatchFailureSpec
spec = record {
  schema_version = 0;
  reason = policy_refused;
  event_uid = "u-1.7";
  dispatch_id = "d-1";
  result_uid = "u-1";
  result_version = 7;
  scenario_name = "home-page";
  runner_uid = "r-1";
  reported_by = "worker";
  worker_uid = "w-1";
  deliveries = 1;
  detail = "refused";
  occurred_at = 0;
}

abbrev no_faults : Faults
no_faults = record { begin_fails = false; enqueue_fails = false; commit_fails = false }

abbrev ledger : Ledger Tables (Option DispatchFailure)
ledger = record { runs = tables waiting; failures = none; outbox = [] }

abbrev on_record : DispatchFailure
on_record = registered (new_failure spec "east" 500)

record_dispatch_failure-IsReportOutcome_example :
    IsReportOutcome
      (memory false)
      one_row
      spec
      500
      ledger
      (record_dispatch_failure (memory false) one_row (λ l. l) no_faults spec "east" 500 ledger)
record_dispatch_failure-IsReportOutcome_example =
    record_dispatch_failure-IsReportOutcome (memory false) one_row no_faults spec "east" 500 ledger

-- The worker reports again, later and with another text.
record_dispatch_failure-once_example :
    let w' =
      (record_dispatch_failure
        (memory false)
        one_row
        (λ l. l)
        no_faults
        spec
        "east"
        500
        ledger).0 in
    record_dispatch_failure
      (memory false)
      one_row
      (λ l. l)
      no_faults
      (record spec { detail = "refused again" })
      "east"
      900
      w'
    ≡ (w', recorded on_record false)
unfolding record_dispatch_failure read result_at row_where insert_row update write
record_dispatch_failure-once_example =
    record_dispatch_failure-once (memory false) one_row (λ l. l) (λ l. l) no_faults no_faults spec
      (record spec { detail = "refused again" }) "east" "east" 500 900 ledger on_record true refl
      refl refl (λ h. ground arith)

abbrev stranded : Result
stranded = record waiting {
  version = 8;
  status = errored;
  result = finished_error;
  time_ended = some 500;
}

abbrev after : Ledger Tables (Option DispatchFailure)
after = record { runs = tables stranded; failures = some on_record; outbox = [] }

abbrev rerun : Result
rerun = inserted "u-2" (retry_of "again" stranded on_record)

-- Two operators press the button.
retry_dispatch_failure-once_example :
    let w' =
      (retry_dispatch_failure
        (memory false)
        (inserts "u-2")
        one_row
        no_faults
        "again"
        on_record
        true
        600
        after).0 in
    let again =
      retry_dispatch_failure
        (memory false)
        (inserts "u-2")
        one_row
        no_faults
        "once-more"
        on_record
        true
        610
        w' in
    IsRerun (memory false) (inserts "u-2") one_row after w' on_record 600 rerun
    × (again.0 ≡ w')
    × ((h : DispatchFailure) → (q : Result) → again.1 ≢ retried h q)
unfolding retry_dispatch_failure result_at read is_zero insert_result update_row
retry_dispatch_failure-once_example =
    retry_dispatch_failure-once (memory false) (inserts "u-2") one_row "again" "once-more" on_record
      on_record true true 600 610 no_faults no_faults after
      (linked (memory false).merge_labels on_record rerun true 600) rerun refl refl refl

abbrev scenario : Scenario
scenario = record {
  name = "home-page";
  uid = "s-1";
  version = 4;
  requirements = "";
  prob = prob;
  is_active = true;
}

abbrev registry : Registry Tables
registry = record { runs = tables waiting; outbox = [] }

-- Nothing in the fleet can take the run.
create_run-IsCreateOutcome_example :
    IsCreateOutcome
      (memory false)
      (inserts "u-2")
      true
      (some (unplaced no_eligible_runner))
      (found scenario)
      700
      registry
      (create_run
        (memory false)
        (inserts "u-2")
        no_faults
        true
        (some (unplaced no_eligible_runner))
        (found scenario)
        (some waiting)
        700
        registry)
create_run-IsCreateOutcome_example =
    create_run-IsCreateOutcome (memory false) (inserts "u-2") no_faults true
      (some (unplaced no_eligible_runner)) (found scenario) (some waiting) 700 registry

abbrev request : ReportRequest
request = record {
  reason = policy_refused;
  event_uid = "u-1.7";
  dispatch_id = "d-1";
  result_uid = "u-1";
  result_version = 7;
  deliveries = 1;
  detail = "refused";
}

report-IsVouchedFor_example :
    ((report
        (memory false)
        one_row
        (λ session. some (claims_of "w-1"))
        (λ l. l)
        no_faults
        "session-1"
        request
        500
        ledger).0
      ≡ ledger)
    ⊎ IsVouchedFor
        (memory false)
        one_row
        (λ session. some (claims_of "w-1"))
        "session-1"
        request
        500
        ledger
        (report
          (memory false)
          one_row
          (λ session. some (claims_of "w-1"))
          (λ l. l)
          no_faults
          "session-1"
          request
          500
          ledger)
report-IsVouchedFor_example =
    report-IsVouchedFor (memory false) one_row (λ session. some (claims_of "w-1")) "session-1"
      request 500 ledger no_faults
