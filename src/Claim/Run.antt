-- ===== src/Claim/Run.antt =====
-- `ClaimRun` and its helpers. One reading of the clock serves a whole call.
use urth.Prelude.{
  ℕ, String, Bool, false, not, ◌&&◌, Option, none, some, [], ◌=ₛ◌, ◌==◌, if◌then◌else◌, Time,
  Duration, pos, minutes, add_time, is_nonpositive, ltb_ℤ, ◌∷◌,
}
use urth.Types.{
  Result, Worker, Runner, ExecutorRef, running, is_running, is_pending, errored, finished_error,
  Prob, claim, is_zero, status_text, run_status_text, Labels,
}
use urth.Labels.{
  put_label, label_runner_name, label_runner_uid, label_worker_name, label_worker_uid,
  label_result_job_state, label_result_status, label_result_unschedulable,
  reason_no_execution_snapshot,
}
use urth.Store.{Database, failed, missing, found, failed_write, rejected, applied}
use urth.Claim.Disposition.{ClaimDisposition, unavailable, obsolete, forbidden, Answer, ok, err}
use urth.Claim.Session.{SessionClaims, load_claimant}

pub record ClaimJobRequest : Type 0 where
  pub dispatch_id : String
  pub result_version : ℕ
  pub timeout : Duration

pub record AuthJobResponse : Type 0 where
  pub uid : String
  pub version : ℕ
  pub token : String
  pub prob : Prob
  pub scenario : String
  pub deadline : Time

-- What the service is assembled with: the session parser and the signer of run capabilities
-- (golang-jwt, with the service's keys), the ceiling on a run, and whether presence is recorded.
pub record Service : Type 0 where
  pub parse_session : String → Option SessionClaims
  pub sign_run : String → Time → Time → Option String
  pub max_run_duration : Duration
  pub has_presence : Bool

abbrev pub default_max_run_duration : Duration
default_max_run_duration = pos (minutes 30)

abbrev pub artifact_upload_grace : Duration
artifact_upload_grace = pos (minutes 5)

unfoldable pub clamp_run_duration : Duration → Duration → Duration
clamp_run_duration requested maximum =
    let ceiling = if is_nonpositive maximum then default_max_run_duration else maximum in
    if not (is_nonpositive requested) && ltb_ℤ requested ceiling then requested else ceiling

unfoldable pub is_reclaim : Result → String → String → Bool
is_reclaim entry worker_uid dispatch_id =
    is_running entry.status
    && (entry.executor.worker_id =ₛ worker_uid && entry.dispatch_id =ₛ dispatch_id)

unfoldable pub executor_ref : Worker → Runner → ExecutorRef
executor_ref worker runner = record {
  runner_id = worker.runner_id;
  runner_name = runner.name;
  worker_id = worker.uid;
  worker_name = worker.name;
}

unfoldable pub executor_labels : ExecutorRef → Labels
executor_labels e = put_label label_worker_uid e.worker_id (
    put_label label_worker_name e.worker_name
      (put_label label_runner_uid e.runner_id (put_label label_runner_name e.runner_name [])))

-- What the checks on a loaded run decide.
pub data Verdict : Type 0 where
  refuse : ClaimDisposition → Verdict
  unschedulable reissue commit : Verdict

-- The checks of `ClaimRun` between the read of the run and its write, in their order.
unfoldable pub adjudicate : Result → Worker → Runner → ClaimJobRequest → Verdict
adjudicate entry worker runner request =
    let again = is_reclaim entry worker.uid request.dispatch_id in
    if not (request.result_version == 0)
      && (not (request.result_version == entry.version) && not again)
    then refuse obsolete
    else (if not (entry.executor.runner_id =ₛ "") && not (entry.executor.runner_id =ₛ runner.uid)
        then refuse obsolete
        else (if is_zero entry.execution
            then unschedulable
            else (if is_running entry.status
                then (if again then reissue else refuse obsolete)
                else (if is_pending entry.status then commit else refuse obsolete))))

module _ (db : Database) (service : Service) where
  open db use {State, get_result, update_result, record_contact, merge_labels}
  open service use {parse_session, sign_run, max_run_duration, has_presence}

  -- The entry that a claim writes.
  unfoldable pub claimed : Result → Worker → Runner → ClaimJobRequest → Time → Result
  claimed entry worker runner request now =
      let executor = executor_ref worker runner in
      record entry {
        time_started = some now;
        status = running;
        executor = executor;
        dispatch_id = request.dispatch_id;
        deadline = add_time now (clamp_run_duration request.timeout max_run_duration);
        labels =
            merge_labels
              (merge_labels entry.labels ((label_result_job_state, status_text running) ∷ []))
              (executor_labels executor);
      }

  unfoldable pub authorize_run : Result → Time → Time → Answer AuthJobResponse
  authorize_run entry deadline now =
      if is_zero entry.execution
      then err obsolete
      else elim (sign_run entry.uid now (add_time deadline artifact_upload_grace)) [
        | none ↦ err unavailable
        | some token ↦ ok (record {
          uid = entry.uid;
          version = entry.version;
          token = token;
          prob = entry.execution.prob;
          scenario = entry.execution.scenario_name;
          deadline = deadline;
        })
      ]

  -- The entry that `markUnschedulable` writes.
  unfoldable pub unschedulable_entry : Result → String → Time → Result
  unschedulable_entry entry reason now = record entry {
    time_ended = some now;
    status = errored;
    result = finished_error;
    labels = merge_labels entry.labels (
        put_label label_result_unschedulable reason (
          (label_result_job_state, status_text errored)
          ∷ (label_result_status, run_status_text finished_error)
          ∷ []));
  }

  unfoldable pub mark_unschedulable : State → Result → String → Time → State
  mark_unschedulable s entry reason now =
      if is_pending entry.status
      then (update_result s (unschedulable_entry entry reason now) entry.version).0
      else s

  unfoldable pub record_claim_contact : State → String → Time → State
  record_claim_contact s worker_uid now =
      if has_presence then record_contact s worker_uid now claim false else s

  -- The write that decides a race, and what follows it.
  unfoldable pub commit_claim :
      State → Result → Worker → Runner → ClaimJobRequest → Time → State × Answer AuthJobResponse
  commit_claim s entry worker runner request now =
      let entry' = claimed entry worker runner request now in
      let written = update_result s entry' entry.version in
      elim written.1 [
        | failed_write ↦ (written.0, err unavailable)
        | rejected ↦ (written.0, err obsolete)
        | applied v ↦ (written.0, authorize_run (record entry' { version = v }) entry'.deadline now)
      ]

  -- `between` is what other processes do to the store after this call has read the run and
  -- before it writes.
  unfoldable pub settle :
      (State → State)
      → State
      → Result
      → Worker
      → Runner
      → ClaimJobRequest
      → Time
      → State × Answer AuthJobResponse
  settle between s entry worker runner request now = elim (adjudicate entry worker runner request) [
    | refuse d ↦ (s, err d)
    | unschedulable ↦
        (mark_unschedulable (between s) entry reason_no_execution_snapshot now, err obsolete)
    | reissue ↦ (s, authorize_run entry entry.deadline now)
    | commit ↦ commit_claim (between s) entry worker runner request now
  ]

  unfoldable pub claim_loaded :
      (State → State)
      → State
      → String
      → Worker
      → Runner
      → ClaimJobRequest
      → Time
      → State × Answer AuthJobResponse
  claim_loaded between s result_uid worker runner request now = elim (get_result s result_uid) [
    | failed ↦ (s, err unavailable)
    | missing ↦ (s, err obsolete)
    | found entry ↦ settle between s entry worker runner request now
  ]

  unfoldable pub claim_run :
      (State → State)
      → State
      → String
      → String
      → ClaimJobRequest
      → Time
      → State × Answer AuthJobResponse
  claim_run between s result_uid session request now = elim (parse_session session) [
    | none ↦ (s, err forbidden)
    | some claims ↦
        if request.dispatch_id =ₛ "" then (s, err forbidden) else elim (load_claimant db s claims) [
          | err d ↦ (s, err d)
          | ok (worker, runner) ↦
              claim_loaded between (record_claim_contact s claims.worker_id now) result_uid worker
                runner request now
        ]
  ]
