-- ===== src/Failure/Resource.antt =====
-- A dispatch that failed, as a resource: pkg/urth/dispatch_failure.go. Reasons are texts, since a
-- report can name one that is unknown.
use Prim.Native.String.{◌++◌ as ◌+ₛ◌, len, slice}
use urth.Prelude.{
  ℕ, String, Bool, false, not, ◌||◌, Option, none, some, List, [], ◌∷◌, ◌=ₛ◌, ltb, if◌then◌else◌,
  Time,
}
use urth.Types.{Labels}
use urth.Labels.{
  put_label, label_safe_value, label_result_uid, label_scenario_name, label_runner_uid,
  label_runner_name, label_worker_uid, label_dispatch_failure_reason,
  label_dispatch_failure_resolved, label_dispatch_failure_reporter,
}

abbrev pub malformed_envelope : String
malformed_envelope = "malformed-envelope"

abbrev pub misrouted_dispatch : String
misrouted_dispatch = "misrouted-dispatch"

abbrev pub policy_refused : String
policy_refused = "policy-refused"

abbrev pub max_delivery_exhausted : String
max_delivery_exhausted = "max-delivery-exhausted"

abbrev pub undeliverable_dispatch : String
undeliverable_dispatch = "undeliverable-dispatch"

-- `DispatchFailureReasons`.
unfoldable pub dispatch_failure_reasons : List String
dispatch_failure_reasons =
    malformed_envelope ∷ misrouted_dispatch ∷ policy_refused ∷ max_delivery_exhausted
    ∷ undeliverable_dispatch ∷ []

abbrev pub contains : List String → String → Bool
contains [] s = false
contains (r ∷ rs) s = r =ₛ s || contains rs s

-- `IsValid`.
unfoldable pub is_valid_reason : String → Bool
unfolding dispatch_failure_reasons
is_valid_reason reason = contains dispatch_failure_reasons reason

-- `TerminatesDispatch`.
unfoldable pub terminates_dispatch : String → Bool
terminates_dispatch reason = not (reason =ₛ max_delivery_exhausted)

pub record DispatchFailureSpec : Type 0 where
  pub schema_version : ℕ
  pub reason : String
  pub event_uid : String
  pub dispatch_id : String
  pub result_uid : String
  pub result_version : ℕ
  pub scenario_name : String
  pub runner_uid : String
  pub reported_by : String
  pub worker_uid : String
  pub deliveries : ℕ
  pub detail : String
  pub occurred_at : Time

pub record DispatchFailureStatus : Type 0 where
  pub resolved : Bool
  pub resolved_at : Option Time
  pub retry_result_uid : String
  pub retry_result_name : String

pub record DispatchFailure : Type 0 where
  pub name : String
  pub uid : String
  pub version : ℕ
  pub labels : Labels
  pub spec : DispatchFailureSpec
  pub status : DispatchFailureStatus

unfoldable pub dispatch_failure_name : String → String → String
unfolding label_safe_value
dispatch_failure_name event_uid reason = label_safe_value (event_uid +ₛ "." +ₛ reason)

pub data InvalidFailure : Type 0 where
  unknown_reason no_event_uid : InvalidFailure

-- `ReportDispatchFailureRequest.Validate`, and the first two checks of `recordDispatchFailure`.
unfoldable pub validate_failure : String → String → Option InvalidFailure
unfolding is_valid_reason
validate_failure reason event_uid =
    if is_valid_reason reason
    then (if event_uid =ₛ "" then some no_event_uid else none)
    else some unknown_reason

abbrev pub dispatch_detail_limit : ℕ
dispatch_detail_limit = 1024

-- `truncateDetail`; a text is cut at a whole character.
unfoldable pub truncate_detail : String → String
truncate_detail detail =
    if ltb dispatch_detail_limit (len detail) then slice detail 0 dispatch_detail_limit else detail

unfoldable pub dispatch_failure_labels : DispatchFailureSpec → String → Labels
unfolding put_label
dispatch_failure_labels spec runner_name = put_label label_worker_uid spec.worker_uid (
    put_label label_runner_name runner_name (
      put_label label_runner_uid spec.runner_uid (
        put_label label_scenario_name spec.scenario_name (
          put_label label_result_uid spec.result_uid (
            (label_dispatch_failure_reason, spec.reason)
            ∷ (label_dispatch_failure_resolved, "false")
            ∷ (label_dispatch_failure_reporter, spec.reported_by)
            ∷ [])))))
