-- ===== src/Schedule.antt =====
-- The creation of runs: `Create`, `createWithDispatch` and `shouldDispatch` of pkg/urth/service.go.
-- The conversion of the manifest, the random name of a run, and the decision of the placement, which
-- Placement models, are given.
pub mod Dispatching
use urth.Prelude.{
  ℕ, String, Bool, true, false, not, ◌&&◌, Option, none, some, [], ◌∷◌, ◌=ₛ◌, if◌then◌else◌, Time,
}
use urth.Types.{
  Result, Scenario, ExecutorRef, pending, not_finished, is_pending, status_text,
  new_execution_snapshot, validate,
}
use urth.Labels.{
  label_scenario_name, label_scenario_uid, label_scenario_version, label_scenario_kind,
  label_result_job_state, label_runner_name, label_runner_uid, reason_invalid_requirements,
  reason_no_eligible_runner,
}
use urth.Store.{Database, Fetch, failed, missing, found}
use urth.Store.Creation.{Creation}
use urth.Outbox.{OutboxTable, decimal}
use urth.Placement.{
  Reason, invalid_requirements, no_eligible_runner, PlacementDecision, placed, unplaced,
}
use urth.Failure.{Faults, fail_run, insert_dispatch}

-- The rows that the service writes: runs and dispatches.
pub record Registry (S : Type 0) : Type 0 where
  pub runs : S
  pub outbox : OutboxTable

pub data CreateAnswer : Type 0 where
  invalid_manifest forbidden not_found store_error : CreateAnswer
  created : Result → CreateAnswer

-- What a pending run has of its executor before it is placed.
abbrev pub no_executor : ExecutorRef
no_executor = record { runner_id = ""; runner_name = ""; worker_id = ""; worker_name = "" }

-- The label of a run that could not be placed.
abbrev pub reason_text : Reason → String
reason_text invalid_requirements = reason_invalid_requirements
reason_text no_eligible_runner = reason_no_eligible_runner

-- `shouldDispatch`, of a run of the scenario.
unfoldable pub should_dispatch : Bool → Scenario → Result → Bool
should_dispatch has_scheduler scenario r =
    has_scheduler && (is_pending r.status && (not (scenario.name =ₛ "") && scenario.is_active))

module _ (db : Database) (creation : Creation db) where
  open db use {State, merge_labels}
  open creation use {create_result}

  -- The entry of a run, before it is placed.
  unfoldable pub pending_entry : Scenario → Result → Time → Result
  unfolding new_execution_snapshot
  pending_entry scenario requested now =
      let snapshot = new_execution_snapshot scenario in
      record requested {
        time_started = elim requested.time_started [ none ↦ none | some _ ↦ some now ];
        execution = snapshot;
        prob_kind = snapshot.prob.kind;
        status = pending;
        result = not_finished;
        executor = no_executor;
        dispatch_id = "";
        deadline = 0;
        labels = merge_labels requested.labels (
            (label_scenario_name, snapshot.scenario_name)
            ∷ (label_scenario_uid, snapshot.scenario_uid)
            ∷ (label_scenario_version, decimal snapshot.scenario_version)
            ∷ (label_scenario_kind, snapshot.prob.kind)
            ∷ (label_result_job_state, status_text pending)
            ∷ []);
      }

  -- The entry after the placement: bound to a runner, or failed.
  unfoldable pub placed_entry : PlacementDecision → Result → Time → Result
  unfolding fail_run
  placed_entry (placed runner capacity regime) entry now = record entry {
    executor = record entry.executor { runner_id = runner.uid; runner_name = runner.name };
    labels =
        merge_labels entry.labels
          ((label_runner_name, runner.name) ∷ (label_runner_uid, runner.uid) ∷ []);
  }
  placed_entry (unplaced reason) entry now = fail_run db entry (reason_text reason) now

  -- `createWithDispatch`; nothing where a statement fails.
  unfoldable pub create_with_dispatch :
      Faults → Bool → Scenario → Result → Time → Registry State → Option (Registry State × Result)
  unfolding should_dispatch insert_dispatch
  create_with_dispatch faults has_scheduler scenario entry now w =
      if faults.begin_fails then none else elim (create_result w.runs entry) [
        | none ↦ none
        | some made ↦
            if should_dispatch has_scheduler scenario made.1
            then elim (insert_dispatch faults.enqueue_fails made.1 now w.outbox) [
              | none ↦ none
              | some outbox ↦
                  if faults.commit_fails
                  then none
                  else some (record { runs = made.0; outbox = outbox }, made.1)
            ]
            else (if faults.commit_fails
                then none
                else some (record { runs = made.0; outbox = w.outbox }, made.1))
      ]

  -- The end of `Create`, from the placement on.
  unfoldable pub place_and_create :
      Faults
      → Bool
      → Option PlacementDecision
      → Scenario
      → Result
      → Time
      → Registry State
      → Registry State × CreateAnswer
  unfolding pending_entry placed_entry create_with_dispatch
  place_and_create faults has_scheduler decision scenario requested now w = elim decision [
    | none ↦ (w, store_error)
    | some d ↦
        elim (create_with_dispatch faults has_scheduler scenario
          (placed_entry d (pending_entry scenario requested now) now) now w) [
            | none ↦ (w, store_error)
            | some (w', r) ↦ (w', created r)
          ]
  ]

  -- `Create`, of the run that a manifest asks for, with what reading the scenario answers.
  unfoldable pub create_run :
      Faults
      → Bool
      → Option PlacementDecision
      → Fetch Scenario
      → Option Result
      → Time
      → Registry State
      → Registry State × CreateAnswer
  unfolding validate place_and_create
  create_run faults has_scheduler decision reading none now w = (w, invalid_manifest)
  create_run faults has_scheduler decision reading (some requested) now w =
      elim requested.time_ended [
        | some _ ↦ (w, forbidden)
        | none ↦ elim reading [
          | failed ↦ (w, store_error)
          | missing ↦ (w, not_found)
          | found scenario ↦
              if not scenario.is_active
              then (w, forbidden)
              else elim (validate (new_execution_snapshot scenario)) [
                | some _ ↦ (w, forbidden)
                | none ↦ place_and_create faults has_scheduler decision scenario requested now w
              ]
        ]
      ]
