-- ===== src/Failure/Stranding.antt =====
-- What a report of a failure does to the run that the dispatch was for.
use urth.Prelude.{
  ℕ, suc, String, true, false, ◌≡◌, refl, sym, ap, ◌∙◌, ◌⊎◌, inl, inr, some, [], ◌∷◌, Time, arith,
  Bool-cases, Option-cases, ◌=ₛ◌, eq_iff,
}
use mathlib.Core.Option.{some-injective}
use mathlib.Core.Path.{subst}
use urth.Types.{Result, Labels, pending, errored, finished_error, is_pending, is_zero}
use urth.Labels.{get_label, label_result_unschedulable}
use urth.Store.{Database, applied, Write-cases, stored, over_labels}
use urth.Claim.Checks.{Fetch-cases}
use urth.Failure.{
  DispatchFailureSpec, DispatchFailure, FailureTable, Ledger, Faults, RecordAnswer, recorded,
  stranded_labels, validate_failure, dispatch_failure_name, new_failure, fail_run, is_superseded,
  strand_run_tx, look_again, record_new, completed_spec, record_dispatch_failure,
}

-- A pending run, which the dispatch was for, is stranded with the reason as its label.
pub record IsStranded (version : ℕ) (reason : String) (now : Time) (r r' : Result) : Type 0 where
  pub was_pending : r.status ≡ pending
  pub was_meant : (version ≡ 0) ⊎ (version ≡ r.version)
  pub is_errored : r'.status ≡ errored
  pub verdict : r'.result ≡ finished_error
  pub has_ended : r'.time_ended ≡ some now
  pub next_version : r'.version ≡ suc r.version
  pub same_execution : r'.execution ≡ r.execution
  pub says_why : get_label label_result_unschedulable r'.labels ≡ some reason

get_label-over_labels :
    (k v : String) (old new : Labels)
    → get_label k new ≡ some v
    → get_label k (over_labels old new) ≡ some v
unfolding get_label
get_label-over_labels k v old [] h = absurd (ground arith)
get_label-over_labels k v old (l ∷ ls) h = h

module _ (db : Database) where
  open db use {
    State, result_row, result_row_uid, get_result, get_result_reads, update_result,
    update_result_applied, update_result_other, merge_labels, get_label_merge,
  }

  stored-IsStranded :
      (version : ℕ) (reason : String) (now : Time) (r : Result)
      → r.status ≡ pending
      → (version ≡ 0) ⊎ (version ≡ r.version)
      → IsStranded version reason now r (stored r (fail_run db r reason now) (suc r.version))
  unfolding stored fail_run get_label
  stored-IsStranded version reason now r was meant = record {
    was_pending = was;
    was_meant = meant;
    is_errored = refl;
    verdict = refl;
    has_ended = refl;
    next_version = refl;
    same_execution = ground (arith, Bool-cases (is_zero r.execution));
    says_why =
        get_label-over_labels label_result_unschedulable reason r.labels
          (merge_labels r.labels (stranded_labels reason))
          (get_label_merge label_result_unschedulable r.labels (stranded_labels reason));
  }

  -- What a strand leaves of every run.
  abbrev pub StrandsOnly : String → ℕ → String → Time → State → State → Type 0
  StrandsOnly uid version reason now s s' =
      (u : String)
      → (result_row s' u ≡ result_row s u)
        ⊎ ((r : Result) × (r' : Result) × (u ≡ uid)
            × (result_row s u ≡ some r)
            × (result_row s' u ≡ some r')
            × IsStranded version reason now r r')

  update_result-StrandsOnly :
      (s : State) (uid : String) (version : ℕ) (reason : String) (now : Time) (r : Result) (v : ℕ)
      → result_row s uid ≡ some r
      → is_pending r.status ≡ true
      → is_superseded db version r ≡ false
      → (update_result s (fail_run db r reason now) r.version).1 ≡ applied v
      → StrandsOnly uid version reason now s
          (update_result s (fail_run db r reason now) r.version).0
  unfolding fail_run
  update_result-StrandsOnly s uid version reason now r v row open_ current done u =
      let own = result_row_uid s uid r row in
      let e = fail_run db r reason now in
      elim (Bool-cases (u =ₛ uid)) [
        | inr other ↦
            inl (
              update_result_other s e r.version u
                (λ same. ground (arith, eq_iff u uid, same ∙ own)))
        | inl here ↦
            let (p, at, same_version, bump, after) = update_result_applied s e r.version v done in
            let which : u ≡ uid = ground (arith, eq_iff u uid) in
            let same : p ≡ r = some-injective _ _ (sym at ∙ ap (result_row s) own ∙ row) in
            inr (
              r,
              stored r e (suc r.version),
              which,
              ap (result_row s) which ∙ row,
              ap (result_row (update_result s e r.version).0) (which ∙ sym own)
                  ∙ after
                  ∙ ap (λ x. some (stored x e (suc r.version))) same,
              stored-IsStranded version reason now r (ground arith) (ground arith),
            )
      ]

  strand_run_tx-StrandsOnly :
      (s s' : State) (uid : String) (version : ℕ) (reason : String) (now : Time)
      → strand_run_tx db s uid version reason now ≡ some s'
      → StrandsOnly uid version reason now s s'
  unfolding strand_run_tx
  strand_run_tx-StrandsOnly s s' uid version reason now h =
      let unchanged : s ≡ s' → StrandsOnly uid version reason now s s' =
        λ same u. inl (ap (λ t. result_row t u) (sym same)) in
      elim (Bool-cases (uid =ₛ "")) [
        | inl unnamed ↦ unchanged (ground arith)
        | inr named ↦ elim (Fetch-cases (get_result s uid)) [
          | inl f ↦ absurd (ground arith)
          | inr (inl f) ↦ unchanged (ground arith)
          | inr (inr (r, f)) ↦ elim (Bool-cases (is_pending r.status)) [
            | inr moved ↦ unchanged (ground arith)
            | inl open_ ↦ elim (Bool-cases (is_superseded db version r)) [
              | inl old ↦ unchanged (ground arith)
              | inr current ↦
                  elim (Write-cases (update_result s (fail_run db r reason now) r.version).1) [
                    | inl e ↦ absurd (ground arith)
                    | inr (inl e) ↦ unchanged (ground arith)
                    | inr (inr (v, e)) ↦
                        subst (λ t. StrandsOnly uid version reason now s t) (ground arith)
                          (update_result-StrandsOnly s uid version reason now r v
                            (rw f at (get_result_reads s uid)) open_ current e)
                  ]
            ]
          ]
        ]
      ]

  module _ (table : FailureTable) where
    open table use {Table, named, get_by_name, create, create_named}

    -- The outcome of a report: nothing changes, or the record is made.
    abbrev pub IsReportOutcome :
        DispatchFailureSpec → Time → Ledger State Table → Ledger State Table × RecordAnswer → Type 0
    IsReportOutcome spec now w out =
        (out.0 ≡ w)
        ⊎ ((e : DispatchFailure) × (out.1 ≡ recorded e true)
            × (named out.0.failures (dispatch_failure_name spec.event_uid spec.reason) ≡ some e)
            × (e.spec ≡ completed_spec spec now)
            × (out.0.outbox ≡ w.outbox)
            × StrandsOnly spec.result_uid spec.result_version spec.reason now w.runs out.0.runs)

    look_again-same : (name : String) (w : Ledger State Table) → (look_again db table name w).0 ≡ w
    unfolding look_again
    look_again-same name w = ground (arith, Fetch-cases (get_by_name w.failures name))

    record_new-IsReportOutcome :
        (faults : Faults) (spec : DispatchFailureSpec) (runner_name : String) (now : Time)
        (w : Ledger State Table)
        → IsReportOutcome spec now w (record_new db table faults spec runner_name now w)
    unfolding record_new
    record_new-IsReportOutcome faults spec runner_name now w =
        let entry = new_failure spec runner_name now in
        elim (Bool-cases faults.begin_fails) [
          | inl b ↦ inl (rw (b, record_new) refl)
          | inr b ↦ elim (Option-cases (create w.failures entry)) [
            | inl c ↦ inl (rw (b, record_new) (rw c (look_again-same entry.name w)))
            | inr (made, c) ↦
                elim (Option-cases
                  (strand_run_tx db w.runs spec.result_uid spec.result_version spec.reason now)) [
                    | inl s ↦ inl (rw (b, record_new) (rw c (rw s refl)))
                    | inr (runs, s) ↦ elim (Bool-cases faults.commit_fails) [
                      | inl k ↦
                          inl
                            (rw (b, record_new) (rw c (rw s (rw k (look_again-same entry.name w)))))
                      | inr k ↦
                          rw (b, record_new)
                            (rw c (
                              rw s (
                                rw k (
                                  inr (
                                    made.1,
                                    refl,
                                    (create_named w.failures entry made c).1,
                                    ap (λ x. x.spec) (create_named w.failures entry made c).2,
                                    refl,
                                    strand_run_tx-StrandsOnly w.runs runs spec.result_uid
                                        spec.result_version spec.reason now s,
                                  )))))
                    ]
                  ]
          ]
        ]

    -- A report that no other reporter interferes with either changes nothing, whatever it is
    -- answered, or is answered with a new record. Then the failure is on record under the name of
    -- its dispatch and its reason, with what was reported, the outbox is as it was, and no run has
    -- changed but possibly the one that the report names: it was pending, at the version of the
    -- dispatch where the report gives one, and has ended with an error, at the next version, with
    -- the reason as its label.
    pub record_dispatch_failure-IsReportOutcome :
        (faults : Faults) (spec : DispatchFailureSpec) (runner_name : String) (now : Time)
        (w : Ledger State Table)
        → IsReportOutcome spec now w
            (record_dispatch_failure db table (λ l. l) faults spec runner_name now w)
    unfolding record_dispatch_failure
    record_dispatch_failure-IsReportOutcome faults spec runner_name now w =
        elim (Option-cases (validate_failure spec.reason spec.event_uid)) [
          | inr (why, v) ↦ inl (rw (v, record_dispatch_failure) refl)
          | inl v ↦
              let name = dispatch_failure_name spec.event_uid spec.reason in
              elim (Fetch-cases (get_by_name w.failures name)) [
                | inl f ↦ inl (rw (v, record_dispatch_failure) (rw f refl))
                | inr (inl f) ↦
                    rw (v, record_dispatch_failure)
                      (rw f (record_new-IsReportOutcome faults spec runner_name now w))
                | inr (inr (a, f)) ↦ inl (rw (v, record_dispatch_failure) (rw f refl))
              ]
        ]
