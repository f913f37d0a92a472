-- ===== src/Types/Lifecycle.antt =====
-- The run (`Result`), its states and its executor; workers, runners and their statuses.
use urth.Prelude.{ℕ, String, Bool, true, false, List, Option, Time}
use urth.Types.Snapshot.{ExecutionSnapshot}

pub data JobStatus : Type 0 where
  pending running expired completed errored : JobStatus

-- The text of each state.
abbrev pub status_text : JobStatus → String
status_text pending = "pending"
status_text running = "running"
status_text expired = "timeout"
status_text completed = "completed"
status_text errored = "errored"

-- `JobStatus.IsTerminal`, by the list of `TerminalJobStates`.
abbrev pub is_terminal : JobStatus → Bool
is_terminal completed = true
is_terminal errored = true
is_terminal expired = true
is_terminal _ = false

abbrev pub is_running : JobStatus → Bool
is_running running = true
is_running _ = false

abbrev pub is_pending : JobStatus → Bool
is_pending pending = true
is_pending _ = false

-- `prob.RunStatus`.
pub data RunStatus : Type 0 where
  not_finished finished_success finished_failed finished_error finished_canceled : RunStatus
  finished_timeout : RunStatus

abbrev pub run_status_text : RunStatus → String
run_status_text not_finished = ""
run_status_text finished_success = "success"
run_status_text finished_failed = "failed"
run_status_text finished_error = "errored"
run_status_text finished_canceled = "canceled"
run_status_text finished_timeout = "timeout"

-- `manifest.Labels`, a Go map, as an association list.
abbrev pub Labels : Type 0
Labels = List (String × String)

pub record ExecutorRef : Type 0 where
  pub runner_id : String
  pub runner_name : String
  pub worker_id : String
  pub worker_name : String

pub record Result : Type 0 where
  pub name : String
  pub uid : String
  pub version : ℕ
  pub created_at : Option Time
  pub labels : Labels
  pub scenario_id : String
  pub prob_kind : String
  pub execution : ExecutionSnapshot
  pub time_started : Option Time
  pub time_ended : Option Time
  pub status : JobStatus
  pub executor : ExecutorRef
  pub dispatch_id : String
  pub deadline : Time
  pub result : RunStatus

-- A limit of 0 instances is no limit.
pub record Runner : Type 0 where
  pub name : String
  pub uid : String
  pub labels : Labels
  pub is_active : Bool
  pub requirements : String
  pub max_instances : ℕ

-- Which evidence last proved that a worker was reachable.
pub data WorkerContact : Type 0 where
  heartbeat claim : WorkerContact

pub record WorkerStatus : Type 0 where
  pub is_paused : Bool
  pub last_seen_time : Option Time
  pub last_seen_via : Option WorkerContact
  pub nats_last_seen_time : Option Time
  pub left_at : Option Time

pub record Worker : Type 0 where
  pub name : String
  pub uid : String
  pub version : ℕ
  pub labels : Labels
  pub runner_id : String
  pub status : WorkerStatus
