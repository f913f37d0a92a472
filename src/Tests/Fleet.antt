-- ===== src/Tests/Fleet.antt =====
-- A small fleet: two workers of one runner, and a run that is pending for it.
use urth.Prelude.{String, true, false, none, some, [], ◌=ₛ◌, if◌then◌else◌, pos, hours}
use urth.Types.{
  Prob, ExecutionSnapshot, Result, Runner, Worker, ExecutorRef, pending, running, not_finished,
}
use urth.Store.Memory.{Tables}
use urth.Claim.{SessionClaims, Service, ClaimJobRequest, AuthJobResponse}

abbrev pub prob : Prob
prob = record { kind = "http"; timeout = pos 0; spec = some "GET /" }

abbrev pub snapshot : ExecutionSnapshot
snapshot = record {
  scenario_uid = "s-1";
  scenario_name = "home-page";
  scenario_version = 4;
  requirements = "";
  prob = prob;
}

abbrev pub unassigned : ExecutorRef
unassigned = record { runner_id = "r-1"; runner_name = ""; worker_id = ""; worker_name = "" }

abbrev pub waiting : Result
waiting = record {
  name = "home-page-1";
  uid = "u-1";
  version = 7;
  created_at = some 100;
  labels = [];
  scenario_id = "s-1";
  prob_kind = "http";
  execution = snapshot;
  time_started = none;
  time_ended = none;
  status = pending;
  executor = unassigned;
  dispatch_id = "";
  deadline = 0;
  result = not_finished;
}

abbrev pub runner : Runner
runner = record {
  name = "east";
  uid = "r-1";
  labels = [];
  is_active = true;
  requirements = "";
  max_instances = 0;
}

abbrev pub worker : String → Worker
worker uid = record {
  name = "worker";
  uid = uid;
  version = 1;
  labels = [];
  runner_id = "r-1";
  status = record {
    is_paused = false;
    last_seen_time = none;
    last_seen_via = none;
    nats_last_seen_time = none;
    left_at = none;
  };
}

abbrev pub claims_of : String → SessionClaims
claims_of uid = record { worker_id = uid; runner_id = "r-1" }

abbrev pub service : Service
service = record {
  parse_session = λ session.
      if session =ₛ "session-1"
      then some (claims_of "w-1")
      else (if session =ₛ "session-2" then some (claims_of "w-2") else none);
  sign_run = λ uid issued expires. some "token";
  max_run_duration = pos (hours 1);
  has_presence = true;
}

abbrev pub tables : Result → Tables
tables entry = record {
  results = λ uid. if uid =ₛ "u-1" then some entry else none;
  workers = λ uid.
      if uid =ₛ "w-1"
      then some (worker "w-1")
      else (if uid =ₛ "w-2" then some (worker "w-2") else none);
  runners = λ uid. if uid =ₛ "r-1" then some runner else none;
}

abbrev pub request : ClaimJobRequest
request = record { dispatch_id = "d-1"; result_version = 7; timeout = pos 60 }

-- The run as the first worker's claim leaves it.
abbrev pub held : Result
held = record waiting {
  version = 8;
  time_started = some 1000;
  status = running;
  executor = record {
    runner_id = "r-1";
    runner_name = "east";
    worker_id = "w-1";
    worker_name = "worker";
  };
  dispatch_id = "d-1";
  deadline = 1060;
}

abbrev pub grant : AuthJobResponse
grant = record {
  uid = "u-1";
  version = 8;
  token = "token";
  prob = prob;
  scenario = "home-page";
  deadline = 1060;
}
