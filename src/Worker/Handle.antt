-- ===== src/Worker/Handle.antt =====
-- One delivered message, from its reading to its acknowledgement and the execution of the run:
-- `handle`, `claim`, `applyDisposition` (worker/consume.go), the reports and the removal of a
-- message (worker/report.go), and the answer of the API to a claim (apiserver/routes.go).
use urth.Prelude.{
  ℕ, String, Bool, true, false, not, ◌&&◌, Option, none, some, List, [], ◌∷◌, ◌++◌, ◌=ₛ◌, ◌==◌, leb,
  ltb, if◌then◌else◌, Duration, seconds,
}
use Prim.Native.String.{◌++◌ as ◌++ₛ◌}
use urth.Claim.{
  ClaimDisposition, unavailable, obsolete, forbidden, ClaimJobRequest, AuthJobResponse,
}
use urth.Worker.Envelope.{DispatchEnvelope, unmarshal_envelope}
use urth.Worker.Budget.{AckVerdict}
use urth.Worker.InFlight.{acquire}

-- `claimHTTPResponse`: the status of the response to a claim that failed.
unfoldable pub claim_http_response : ClaimDisposition → ℕ
claim_http_response obsolete = 409
claim_http_response forbidden = 403
claim_http_response unavailable = 503

pub data ClaimOutcome : Type 0 where
  claim_accepted claim_retry claim_stale claim_terminal claim_abandon : ClaimOutcome

-- `classifyClaimFailure`, over what `apiStatus` reads from the error.
unfoldable pub classify_claim_failure : Option ℕ → ClaimOutcome
classify_claim_failure none = claim_retry
classify_claim_failure (some status) =
    if status == 409
    then claim_stale
    else (if status == 403
        then claim_terminal
        else (if status == 401
            then claim_terminal
            else (if status == 400
                then claim_terminal
                else (if status == 404 then claim_terminal else claim_retry))))

pub data DispatchFailureReason : Type 0 where
  malformed_envelope misrouted_dispatch policy_refused max_delivery_exhausted :
      DispatchFailureReason
  undeliverable_dispatch : DispatchFailureReason

-- Where the broker holds a message: its stream, and its sequence there in decimal.
pub record Metadata : Type 0 where
  pub stream : String
  pub sequence : String
  pub deliveries : ℕ

-- A delivered message: what its data decodes to, and its metadata where it has them.
pub record Message : Type 0 where
  pub decoded : DispatchEnvelope × Bool
  pub metadata : Option Metadata

-- `ReportDispatchFailureRequest`, less the text of its detail.
pub record FailureReport : Type 0 where
  pub reason : DispatchFailureReason
  pub event_uid : String
  pub dispatch_id : String
  pub result_uid : String
  pub result_version : ℕ
  pub deliveries : ℕ

-- What the worker does to the message and the run, in order.
pub data Action : Type 0 where
  asks_claim : ClaimJobRequest → Action
  reports : FailureReport → Action
  acks terminates : Action
  naks : ℕ → Action
  confirms : AckVerdict → Action
  executes : AuthJobResponse → Action

-- What the API server answers to a claim: the grant, or an error with the status it carries.
pub data ClaimReply : Type 0 where
  granted : AuthJobResponse → ClaimReply
  refused : Option ℕ → ClaimReply

pub data ReportReply : Type 0 where
  recorded : ReportReply
  unrecorded : Option ℕ → ReportReply

-- What surrounds a worker while it handles one message: its runner, its time limit for a run, the
-- answers of the API server, whether a shutdown has begun when a claim fails, and what becomes of
-- the acknowledgement.
pub record Surroundings : Type 0 where
  pub runner_uid : String
  pub timeout : Duration
  pub claim_reply : ClaimJobRequest → ClaimReply
  pub is_shutting_down : Bool
  pub report_reply : FailureReport → ReportReply
  pub ack_verdict : AckVerdict

-- `dispatchEventUID`.
unfoldable pub dispatch_event_uid : Message → DispatchEnvelope → Bool → String
dispatch_event_uid msg envelope envelope_ok =
    if envelope_ok && not (envelope.dispatch_id =ₛ "")
    then envelope.dispatch_id
    else elim msg.metadata [
      | none ↦ "unreadable.unknown"
      | some m ↦ "unreadable." ++ₛ (m.stream ++ₛ ("." ++ₛ m.sequence))
    ]

abbrev pub delivery_count : Message → ℕ
delivery_count msg = elim msg.metadata [ none ↦ 0 | some m ↦ m.deliveries ]

-- A status of the 400s.
unfoldable pub permanent_report_refusal : Option ℕ → Bool
permanent_report_refusal none = false
permanent_report_refusal (some status) = leb 400 status && ltb status 500

-- The report that `reportDispatchFailure` makes.
unfoldable pub failure_report :
    Message → DispatchEnvelope → Bool → DispatchFailureReason → FailureReport
unfolding dispatch_event_uid
failure_report msg envelope envelope_ok reason = record {
  reason = reason;
  event_uid = dispatch_event_uid msg envelope envelope_ok;
  dispatch_id = if envelope_ok then envelope.dispatch_id else "";
  result_uid = if envelope_ok then envelope.result_uid else "";
  result_version = if envelope_ok then envelope.result_version else 0;
  deliveries = delivery_count msg;
}

-- Whether the message may be removed after the report.
unfoldable pub may_terminate : ReportReply → Bool
unfolding permanent_report_refusal
may_terminate recorded = true
may_terminate (unrecorded status) = permanent_report_refusal status

-- The report, and `terminate` on what it answers.
unfoldable pub report_and_terminate : Surroundings → FailureReport → List Action
unfolding may_terminate
report_and_terminate around report =
    if may_terminate (around.report_reply report)
    then reports report ∷ terminates ∷ []
    else reports report ∷ naks (seconds 30) ∷ []

abbrev pub claim_request : Surroundings → DispatchEnvelope → ClaimJobRequest
claim_request around envelope = record {
  dispatch_id = envelope.dispatch_id;
  result_version = envelope.result_version;
  timeout = around.timeout;
}

-- The outcome that `claim` makes of the API's answer.
unfoldable pub claim_outcome : Surroundings → ClaimReply → ClaimOutcome
unfolding classify_claim_failure
claim_outcome around (granted auth) = claim_accepted
claim_outcome around (refused status) =
    if around.is_shutting_down then claim_abandon else classify_claim_failure status

-- `applyDisposition`: the acknowledgement, and whether to execute.
unfoldable pub apply_disposition : Surroundings → ClaimOutcome → FailureReport → List Action × Bool
unfolding report_and_terminate
apply_disposition around claim_accepted report = (confirms around.ack_verdict ∷ [], true)
apply_disposition around claim_retry report = (naks (seconds 5) ∷ [], false)
apply_disposition around claim_stale report = (acks ∷ [], false)
apply_disposition around claim_terminal report = (report_and_terminate around report, false)
apply_disposition around claim_abandon report = ([], false)

-- `runJob`, where there is an authorisation to run under.
abbrev pub run_job : ClaimReply → Bool → List Action
run_job (granted auth) true = executes auth ∷ []
run_job _ _ = []

unfoldable pub claim_and_apply : Surroundings → DispatchEnvelope → FailureReport → List Action
unfolding apply_disposition claim_outcome
claim_and_apply around envelope report =
    let request = claim_request around envelope in
    let reply = around.claim_reply request in
    let (actions, execute) = apply_disposition around (claim_outcome around reply) report in
    asks_claim request ∷ (actions ++ run_job reply execute)

-- `handle`, in a process that owns the runs `runs`.
unfoldable pub handle : Surroundings → List String → Message → List Action
unfolding unmarshal_envelope acquire failure_report claim_and_apply report_and_terminate
handle around runs msg =
    let (envelope, error) = unmarshal_envelope msg.decoded in
    elim error [
      | some _ ↦ report_and_terminate around (failure_report msg envelope false malformed_envelope)
      | none ↦
          if not (envelope.runner_uid =ₛ around.runner_uid)
          then report_and_terminate around (failure_report msg envelope true misrouted_dispatch)
          else (if not (acquire envelope.result_uid runs).1
              then acks ∷ []
              else claim_and_apply around envelope
                  (failure_report msg envelope true policy_refused))
    ]
