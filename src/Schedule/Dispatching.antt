-- ===== src/Schedule/Dispatching.antt =====
-- A run that was created is dispatched, or was never to be.
use urth.Prelude.{
  String, Bool, true, false, ◌≡◌, ◌≢◌, refl, sym, ap, ◌∙◌, ◌⊎◌, inl, inr, none, some, Option, Time,
  arith, Bool-cases, Option-cases,
}
use mathlib.Core.Path.{subst}
use urth.Types.{Result, Scenario, pending, errored, new_execution_snapshot, validate}
use urth.Store.{Database, Fetch, found}
use urth.Store.Creation.{Creation, assigned}
use urth.Claim.Checks.{Fetch-cases}
use urth.Placement.{PlacementDecision, placed, unplaced}
use urth.Failure.{Faults, insert_dispatch, fail_run}
use urth.Failure.Rerun.{IsEnqueued, insert_dispatch-IsEnqueued}
use urth.Schedule.{
  Registry, CreateAnswer, created, should_dispatch, pending_entry, placed_entry,
  create_with_dispatch, place_and_create, create_run,
}

-- Where a new run goes.
abbrev pub IsPlacedBy : PlacementDecision → Result → Type 0
IsPlacedBy (placed runner capacity regime) r =
    (r.status ≡ pending) × (r.executor.runner_id ≡ runner.uid)
IsPlacedBy (unplaced reason) r = r.status ≡ errored

module _ (db : Database) (creation : Creation db) where
  open db use {State, result_row}
  open creation use {
    create_result, create_result_row, create_result_new, create_result_other, create_result_keeps,
  }

  -- What is left of a run that was created.
  pub record IsScheduled (has_scheduler : Bool) (scenario : Scenario) (d : PlacementDecision)
      (now : Time) (w w' : Registry State) (r : Result) : Type 0 where
    pub was_absent : result_row w.runs r.uid ≡ none
    pub new_row : result_row w'.runs r.uid ≡ some r
    pub others : (uid : String) → uid ≢ r.uid → result_row w'.runs uid ≡ result_row w.runs uid
    pub runs_snapshot : r.execution ≡ new_execution_snapshot scenario
    pub no_worker : r.executor.worker_id ≡ ""
    pub placement : IsPlacedBy d r
    pub dispatch :
        ((should_dispatch has_scheduler scenario r ≡ true) × IsEnqueued r now w.outbox w'.outbox)
        ⊎ ((should_dispatch has_scheduler scenario r ≡ false) × (w'.outbox ≡ w.outbox))

  -- The two ways in which a transaction creates a run.
  create_with_dispatch-cases :
      (faults : Faults) (has_scheduler : Bool) (scenario : Scenario) (entry : Result) (now : Time)
      (w : Registry State) (out : Registry State × Result)
      → create_with_dispatch db creation faults has_scheduler scenario entry now w ≡ some out
      → (create_result w.runs entry ≡ some (out.0.runs, out.1))
        × (((should_dispatch has_scheduler scenario out.1 ≡ true)
              × (insert_dispatch faults.enqueue_fails out.1 now w.outbox ≡ some out.0.outbox))
            ⊎ ((should_dispatch has_scheduler scenario out.1 ≡ false) × (out.0.outbox ≡ w.outbox)))
  unfolding create_with_dispatch
  create_with_dispatch-cases faults has_scheduler scenario entry now w out h =
      elim (Option-cases (create_result w.runs entry)) [
        | inl c ↦ absurd (ground arith)
        | inr (made, c) ↦ elim (Bool-cases (should_dispatch has_scheduler scenario made.1)) [
          | inr skip ↦ ground arith
          | inl send ↦
              elim (Option-cases (insert_dispatch faults.enqueue_fails made.1 now w.outbox)) [
                | inl i ↦ absurd (ground arith)
                | inr (outbox, i) ↦ ground arith
              ]
        ]
      ]

  placed_entry-IsPlacedBy :
      (d : PlacementDecision) (scenario : Scenario) (requested : Result) (now : Time) (r : Result)
      → let e = placed_entry db creation d (pending_entry db creation scenario requested now) now in
        IsPlacedBy d (assigned e r)
        × (e.execution ≡ new_execution_snapshot scenario)
        × (e.executor.worker_id ≡ "")
  unfolding placed_entry pending_entry fail_run
  placed_entry-IsPlacedBy (placed runner capacity regime) scenario requested now r =
      ((refl, refl), refl, refl)
  placed_entry-IsPlacedBy (unplaced reason) scenario requested now r = (refl, refl, refl)

  create_with_dispatch-IsScheduled :
      (faults : Faults) (has_scheduler : Bool) (scenario : Scenario) (d : PlacementDecision)
      (requested : Result) (now : Time) (w : Registry State) (out : Registry State × Result)
      → create_with_dispatch db creation faults has_scheduler scenario
          (placed_entry db creation d (pending_entry db creation scenario requested now) now)
          now
          w
        ≡ some out
      → IsScheduled has_scheduler scenario d now w out.0 out.1
  create_with_dispatch-IsScheduled faults has_scheduler scenario d requested now w out h =
      let e = placed_entry db creation d (pending_entry db creation scenario requested now) now in
      let made : State × Result = (out.0.runs, out.1) in
      let (c, sent) = create_with_dispatch-cases faults has_scheduler scenario e now w out h in
      let keeps = create_result_keeps w.runs e made c in
      let (placing, execution, worker) = placed_entry-IsPlacedBy d scenario requested now out.1 in
      record {
        was_absent = create_result_new w.runs e made c;
        new_row = create_result_row w.runs e made c;
        others = λ uid other. create_result_other w.runs e made uid c other;
        runs_snapshot = ap (λ x. x.execution) keeps ∙ execution;
        no_worker = ap (λ x. x.executor.worker_id) keeps ∙ worker;
        placement = subst (λ x. IsPlacedBy d x) (sym keeps) placing;
        dispatch = elim sent [
          | inl (send, i) ↦ inl (
            send,
            insert_dispatch-IsEnqueued faults.enqueue_fails out.1 now w.outbox out.0.outbox i,
          )
          | inr skip ↦ inr skip
        ];
      }

  -- The outcome of a creation: nothing is written, or a run is scheduled.
  abbrev pub IsCreateOutcome :
      Bool
      → Option PlacementDecision
      → Fetch Scenario
      → Time
      → Registry State
      → Registry State × CreateAnswer
      → Type 0
  IsCreateOutcome has_scheduler decision reading now w out =
      ((out.0 ≡ w) × ((r : Result) → out.1 ≢ created r))
      ⊎ ((scenario : Scenario) × (d : PlacementDecision) × (r : Result) × (reading ≡ found scenario)
          × (scenario.is_active ≡ true)
          × (validate (new_execution_snapshot scenario) ≡ none)
          × (decision ≡ some d)
          × (out.1 ≡ created r)
          × IsScheduled has_scheduler scenario d now w out.0 r)

  place_and_create-IsCreateOutcome :
      (faults : Faults) (has_scheduler : Bool) (decision : Option PlacementDecision)
      (scenario : Scenario) (requested : Result) (now : Time) (w : Registry State)
      → scenario.is_active ≡ true
      → validate (new_execution_snapshot scenario) ≡ none
      → IsCreateOutcome has_scheduler decision
          (found scenario)
          now
          w
          (place_and_create db creation faults has_scheduler decision scenario requested now w)
  unfolding place_and_create
  place_and_create-IsCreateOutcome faults has_scheduler none scenario requested now w on valid =
      inl (refl, λ r h. ground arith)
  place_and_create-IsCreateOutcome faults has_scheduler (some d) scenario requested now w on valid =
      let e = placed_entry db creation d (pending_entry db creation scenario requested now) now in
      elim (Option-cases (create_with_dispatch db creation faults has_scheduler scenario e now w)) [
        | inl c ↦ inl (rw (c, place_and_create) (refl, λ r h. ground arith))
        | inr (out, c) ↦ inr (
            rw (c, place_and_create)
              (
                scenario,
                d,
                out.1,
                refl,
                on,
                valid,
                refl,
                refl,
                create_with_dispatch-IsScheduled faults has_scheduler scenario d requested now w out
                    c,
              ))
      ]

  -- A request for a run either changes nothing, or creates one run, of a scenario that is active
  -- and whose snapshot is valid. The run is a new row, executes that snapshot, and has no worker;
  -- it is pending on the runner of the placement, or has ended with an error where there is none.
  -- In the same step the outbox gets one entry for it, due now, if it is to be dispatched, and
  -- none otherwise; every other run is as it was.
  pub create_run-IsCreateOutcome :
      (faults : Faults) (has_scheduler : Bool) (decision : Option PlacementDecision)
      (reading : Fetch Scenario) (requested : Option Result) (now : Time) (w : Registry State)
      → IsCreateOutcome has_scheduler decision reading now w
          (create_run db creation faults has_scheduler decision reading requested now w)
  unfolding create_run
  create_run-IsCreateOutcome faults has_scheduler decision reading none now w =
      inl (refl, λ r h. ground arith)
  create_run-IsCreateOutcome faults has_scheduler decision reading (some requested) now w =
      elim (Option-cases requested.time_ended) [
        | inr (t, e) ↦ inl (rw (e, create_run) (refl, λ r h. ground arith))
        | inl e ↦ elim (Fetch-cases reading) [
          | inl f ↦ inl (rw (e, create_run) (rw f (refl, λ r h. ground arith)))
          | inr (inl f) ↦ inl (rw (e, create_run) (rw f (refl, λ r h. ground arith)))
          | inr (inr (scenario, f)) ↦ elim (Bool-cases scenario.is_active) [
            | inr off ↦ inl (rw (e, create_run) (rw f (rw off (refl, λ r h. ground arith))))
            | inl on ↦ elim (Option-cases (validate (new_execution_snapshot scenario))) [
              | inr (why, v) ↦
                  inl (rw (e, create_run) (rw f (rw on (rw v (refl, λ r h. ground arith)))))
              | inl v ↦
                  let placing =
                    place_and_create db creation faults has_scheduler decision scenario requested
                      now w in
                  let goes : create_run db creation faults has_scheduler decision reading
                        (some requested) now w
                      ≡ placing =
                    ground arith in
                  subst (λ o. IsCreateOutcome has_scheduler decision reading now w o) (sym goes)
                    (subst (λ x. IsCreateOutcome has_scheduler decision x now w placing) (sym f)
                      (place_and_create-IsCreateOutcome faults has_scheduler decision scenario
                        requested now w on v))
            ]
          ]
        ]
      ]
