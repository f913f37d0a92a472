-- ===== src/Types/Snapshot.antt =====
-- pkg/urth/execution.go, with prob.Manifest and what a snapshot copies from a scenario.
use urth.Prelude.{
  ℕ, String, Bool, true, false, ◌&&◌, Option, none, some, ◌=ₛ◌, if◌then◌else◌, Duration,
}

-- `prob.Manifest`; `Spec` is nil or a payload that is handed on unread.
pub record Prob : Type 0 where
  pub kind : String
  pub timeout : Duration
  pub spec : Option String

pub record Scenario : Type 0 where
  pub name : String
  pub uid : String
  pub version : ℕ
  pub requirements : String
  pub prob : Prob
  pub is_active : Bool

pub record ExecutionSnapshot : Type 0 where
  pub scenario_uid : String
  pub scenario_name : String
  pub scenario_version : ℕ
  pub requirements : String
  pub prob : Prob

unfoldable pub new_execution_snapshot : Scenario → ExecutionSnapshot
new_execution_snapshot s = record {
  scenario_uid = s.uid;
  scenario_name = s.name;
  scenario_version = s.version;
  requirements = s.requirements;
  prob = s.prob;
}

abbrev pub is_nil {ℓ} : {A : Type ℓ} → Option A → Bool
is_nil none = true
is_nil (some _) = false

-- `ExecutionSnapshot.IsZero`.
unfoldable pub is_zero : ExecutionSnapshot → Bool
is_zero s = s.scenario_uid =ₛ "" && (s.prob.kind =ₛ "" && is_nil s.prob.spec)

-- The errors of `ExecutionSnapshot.Validate`.
pub data SnapshotError : Type 0 where
  no_scenario no_prob_kind no_prob_spec : SnapshotError

-- `ExecutionSnapshot.Validate`; nil is `none`.
unfoldable pub validate : ExecutionSnapshot → Option SnapshotError
validate s =
    if s.scenario_uid =ₛ ""
    then some no_scenario
    else (if s.prob.kind =ₛ ""
        then some no_prob_kind
        else (if is_nil s.prob.spec then some no_prob_spec else none))
