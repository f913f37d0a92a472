-- ===== src/Labels.antt =====
-- pkg/urth/labels.go: label values made safe, and label maps.
pub mod Grammar
use Prim.Native.Char.{Char, code}
use Prim.Native.String
use urth.Prelude.{
  ℕ, String, Bool, ◌&&◌, ◌||◌, [], ◌∷◌, Option, none, some, ◌=ₛ◌, leb, ◌==◌, if◌then◌else◌,
}
use urth.Types.{Labels}

unfoldable pub is_alphanumeric : ℕ → Bool
is_alphanumeric r =
    (leb b'a' r && leb r b'z') || ((leb b'A' r && leb r b'Z') || (leb b'0' r && leb r b'9'))

unfoldable pub is_label_rune : ℕ → Bool
unfolding is_alphanumeric
is_label_rune r = is_alphanumeric r || (r == b'_' || (r == b'.' || r == b'-'))

unfoldable pub safe_rune : Char → Char
safe_rune r = if is_label_rune (code r) then r else "-"

-- `strings.Map`.
unfoldable pub map_runes : (Char → Char) → String → String
map_runes f String.[] = ""
map_runes f (String.◌∷◌ r s) = String.◌∷◌ (f r) (map_runes f s)

-- The two halves of `strings.TrimFunc`, for the runes that are not kept.
unfoldable pub trim_left : String → String
trim_left String.[] = ""
trim_left (String.◌∷◌ r s) =
    let rest = trim_left s in if is_alphanumeric (code r) then String.◌∷◌ r s else rest

-- A rune is dropped at the end if nothing alphanumeric follows it and it is not itself such.
unfoldable pub cons_unless_trimmed : Char → String → String
cons_unless_trimmed r String.[] = if is_alphanumeric (code r) then String.◌∷◌ r "" else ""
cons_unless_trimmed r (String.◌∷◌ q s) = String.◌∷◌ r (String.◌∷◌ q s)

unfoldable pub trim_right : String → String
trim_right String.[] = ""
trim_right (String.◌∷◌ r s) = cons_unless_trimmed r (trim_right s)

unfoldable pub label_safe_value : String → String
unfolding map_runes safe_rune is_label_rune trim_left trim_right cons_unless_trimmed
label_safe_value value = trim_right (trim_left (map_runes safe_rune value))

-- `labels[key] = value` on a Go map, and a read of it.
unfoldable pub set_label : String → String → Labels → Labels
set_label key value [] = (key, value) ∷ []
set_label key value ((k, v) ∷ labels) =
    if k =ₛ key then (key, value) ∷ labels else (k, v) ∷ set_label key value labels

unfoldable pub get_label : String → Labels → Option String
get_label key [] = none
get_label key ((k, v) ∷ labels) = if k =ₛ key then some v else get_label key labels

unfoldable pub put_label : String → String → Labels → Labels
unfolding set_label label_safe_value
put_label key value labels =
    if label_safe_value value =ₛ "" then labels else set_label key (label_safe_value value) labels

abbrev pub label_result_job_state : String
label_result_job_state = "urth/result.state"

abbrev pub label_result_status : String
label_result_status = "urth/result.result"

abbrev pub label_result_unschedulable : String
label_result_unschedulable = "urth/result.unschedulable"

abbrev pub label_runner_name : String
label_runner_name = "urth/runner.name"

abbrev pub label_runner_uid : String
label_runner_uid = "urth/runner.uid"

abbrev pub label_worker_name : String
label_worker_name = "urth/worker.name"

abbrev pub label_worker_uid : String
label_worker_uid = "urth/worker.uid"

abbrev pub reason_no_execution_snapshot : String
reason_no_execution_snapshot = "missing-execution-snapshot"

abbrev pub reason_no_eligible_runner : String
reason_no_eligible_runner = "no-eligible-runner"

abbrev pub reason_invalid_requirements : String
reason_invalid_requirements = "invalid-requirements"

abbrev pub label_scenario_name : String
label_scenario_name = "urth/scenario.name"

abbrev pub label_scenario_uid : String
label_scenario_uid = "urth/scenario.uid"

abbrev pub label_scenario_version : String
label_scenario_version = "urth/scenario.version"

abbrev pub label_scenario_kind : String
label_scenario_kind = "urth/scenario.kind"

abbrev pub label_result_uid : String
label_result_uid = "urth/result.uid"

abbrev pub label_retry_of_result : String
label_retry_of_result = "urth/result.retry-of"

abbrev pub label_retry_of_failure : String
label_retry_of_failure = "urth/result.retry-of-failure"

abbrev pub label_dispatch_failure_reason : String
label_dispatch_failure_reason = "urth/dispatch-failure.reason"

abbrev pub label_dispatch_failure_resolved : String
label_dispatch_failure_resolved = "urth/dispatch-failure.resolved"

abbrev pub label_dispatch_failure_reporter : String
label_dispatch_failure_reporter = "urth/dispatch-failure.reporter"
