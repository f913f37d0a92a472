-- ===== src/Store/Rows.antt =====
-- What reads and version-guarded writes answer, and what a write leaves in a row.
use urth.Prelude.{
  ℕ, String, ◌≡◌, refl, ◌⊎◌, inl, inr, Option, none, some, [], ◌∷◌, ◌=ₛ◌, ◌==◌, if◌then◌else◌,
}
use urth.Types.{Labels, Result, ExecutorRef, ExecutionSnapshot, is_zero, RunStatus, not_finished}

-- `(ok, err)` of a read.
pub data Fetch {ℓ} (A : Type ℓ) : Type ℓ where
  failed : Fetch A
  missing : Fetch A
  found : A → Fetch A

-- `(ok, err)` of a version-guarded write; the new version where it applied.
pub data Write : Type 0 where
  failed_write : Write
  rejected : Write
  applied : ℕ → Write

pub Write-cases : (w : Write) → (w ≡ failed_write) ⊎ ((w ≡ rejected) ⊎ ((v : ℕ) × (w ≡ applied v)))
Write-cases failed_write = inl refl
Write-cases rejected = inr (inl refl)
Write-cases (applied v) = inr (inr (v, refl))

abbrev pub Reads {ℓ} : {A : Type ℓ} → Fetch A → Option A → Type ℓ
Reads failed row = Unit
Reads missing row = row ≡ none
Reads (found a) row = row ≡ some a

abbrev pub or_else {ℓ} : {A : Type ℓ} → Option A → Option A → Option A
or_else none other = other
or_else (some a) other = some a

-- gorm's `Updates` skips the zero-valued fields of the struct that it is given.
abbrev pub over_text : String → String → String
over_text old new = if new =ₛ "" then old else new

abbrev pub over_number : ℕ → ℕ → ℕ
over_number old new = if new == 0 then old else new

abbrev pub over_labels : Labels → Labels → Labels
over_labels old [] = old
over_labels old (l ∷ ls) = l ∷ ls

abbrev pub over_run_status : RunStatus → RunStatus → RunStatus
over_run_status old not_finished = old
over_run_status old new = new

abbrev pub over_executor : ExecutorRef → ExecutorRef → ExecutorRef
over_executor old new = record {
  runner_id = over_text old.runner_id new.runner_id;
  runner_name = over_text old.runner_name new.runner_name;
  worker_id = over_text old.worker_id new.worker_id;
  worker_name = over_text old.worker_name new.worker_name;
}

abbrev pub over_execution : ExecutionSnapshot → ExecutionSnapshot → ExecutionSnapshot
over_execution old new = if is_zero new then old else new

-- The row after a write of `e` over the row `r`, at the bumped version.
unfoldable pub stored : Result → Result → ℕ → Result
stored r e version = record {
  name = over_text r.name e.name;
  uid = r.uid;
  version = version;
  created_at = or_else e.created_at r.created_at;
  labels = over_labels r.labels e.labels;
  scenario_id = over_text r.scenario_id e.scenario_id;
  prob_kind = over_text r.prob_kind e.prob_kind;
  execution = over_execution r.execution e.execution;
  time_started = or_else e.time_started r.time_started;
  time_ended = or_else e.time_ended r.time_ended;
  status = e.status;
  executor = over_executor r.executor e.executor;
  dispatch_id = over_text r.dispatch_id e.dispatch_id;
  deadline = over_number r.deadline e.deadline;
  result = over_run_status r.result e.result;
}
