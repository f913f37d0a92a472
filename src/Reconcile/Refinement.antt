-- ===== src/Reconcile/Refinement.antt =====
-- A scan implements the abstract run: whatever its passes do, a run is left or expires once.
use urth.Prelude.{sort_stable-All, take-All, map-All, where-All, weaken-All}
use urth.Prelude.{
  String, ◌≡◌, refl, sym, ap, ◌∙◌, inl, inr, some, List, [], ◌∷◌, map, All, Time, time_before,
  Bool-cases, Option-cases, List-cases, is_nonpositive,
}
use mathlib.Core.Path.{subst}
use urth.Types.{Result, Worker}
use urth.Store.{Database}
use urth.Reconcile.{
  LeaseRow, acquire_scan_lease, Scans, PendingRun, Reconciler, ReconcileReport, Scan, Health,
  expired_runs, stale_pending_runs, stuck_runs, dispatch_of, earlier_deadline, earlier_created,
  belongs_to_relay, expire_overdue, count_running, count_pending, lease_expired_reason,
  retired_reason_of, expire_one, expire_each, expire_abandoned_runs, release_abandoned,
  reconcile_pending, reconcile_each, enqueue_one, reconcile_pending_dispatches,
  retire_stale_dispatches, reconcile_runner_channels, evict_one, evict_each, new_report,
  evict_silent_workers, run_passes, run_scan, note_inconsistent, silent_workers,
}
use urth.Reconcile.Evolution.{
  Evolves, Evolves-trans, IsAtOrPast, Evolves-IsAtOrPast, expire_run-Evolves,
}
use urth.Reconcile.Untouched.{
  retire_stale_dispatches-state, reconcile_runner_channels-state, release_abandoned-state,
  drop_worker-result_row,
}

module _ (db : Database) (scans : Scans db) (now : Time) where
  open db use {State, result_row}
  open scans use {result_rows, result_rows_read, outbox_fails}

  -- Every run evolves from one state of a scan to another.
  abbrev pub AllEvolve : Scan State → Scan State → Type 0
  AllEvolve w w' = (uid : String) → Evolves now (result_row w.state uid) (result_row w'.state uid)

  abbrev pub AreAtOrPast : Scan State → List Result → Type 0
  AreAtOrPast w rs = All (λ c. IsAtOrPast c (result_row w.state c.uid)) rs

  AllEvolve-refl : (w : Scan State) → AllEvolve w w
  AllEvolve-refl w uid = inl refl

  AllEvolve-trans : (u v w : Scan State) → AllEvolve u v → AllEvolve v w → AllEvolve u w
  AllEvolve-trans u v w first second uid = Evolves-trans now _ _ _ (first uid) (second uid)

  AllEvolve-AreAtOrPast :
      (w w' : Scan State) (rs : List Result) → AllEvolve w w' → AreAtOrPast w rs → AreAtOrPast w' rs
  AllEvolve-AreAtOrPast w w' rs step known =
      weaken-All _ _ rs (λ c. Evolves-IsAtOrPast now c _ _ (step c.uid)) known

  expire_one-AllEvolve :
      (count : ReconcileReport → ReconcileReport) (reason : String) (r : Result) (w : Scan State)
      → IsAtOrPast r (result_row w.state r.uid)
      → AllEvolve w (expire_one db scans count now reason r w)
  unfolding expire_one
  expire_one-AllEvolve count reason r w known uid =
      expire_run-Evolves db scans w.state w.outbox r now reason uid known

  pub expire_overdue-AllEvolve :
      (r : Result) (w : Scan State)
      → IsAtOrPast r (result_row w.state r.uid)
      → AllEvolve w (expire_overdue db scans now r w)
  unfolding expire_overdue
  expire_overdue-AllEvolve r w known =
      expire_one-AllEvolve count_running lease_expired_reason r
        (record w { report = note_inconsistent r now w.report }) known

  pub expire_each-AllEvolve :
      (rs : List Result) (w : Scan State)
      → AreAtOrPast w rs
      → AllEvolve w (expire_each db scans now rs w)
  unfolding expire_each
  expire_each-AllEvolve [] w known = AllEvolve-refl w
  expire_each-AllEvolve (r ∷ rs) w (first, known) =
      let w' = expire_overdue db scans now r w in
      let step = expire_overdue-AllEvolve r w first in
      AllEvolve-trans w w' (expire_each db scans now rs w') step
        (expire_each-AllEvolve rs w' (AllEvolve-AreAtOrPast w w' rs step known))

  read-AreAtOrPast :
      (w : Scan State) (rows : List Result) → result_rows w.state ≡ some rows → AreAtOrPast w rows
  read-AreAtOrPast w rows answered =
      weaken-All _ _ rows (λ c at. (c, at, inl refl)) (result_rows_read w.state rows answered)

  pub expire_abandoned_runs-AllEvolve :
      (r : Reconciler) (w : Scan State) → AllEvolve w (expire_abandoned_runs db scans r now w)
  unfolding expire_abandoned_runs expired_runs
  expire_abandoned_runs-AllEvolve r w = elim (Option-cases (result_rows w.state)) [
    | inl e ↦ rw (e, expire_abandoned_runs) (AllEvolve-refl w)
    | inr (rows, e) ↦
        rw (e, expire_abandoned_runs)
          (expire_each-AllEvolve _ w (
            take-All _ r.batch_size _ (
              sort_stable-All _ earlier_deadline _
                (where-All _ _ rows (read-AreAtOrPast w rows e)))))
  ]

  reconcile_pending-AllEvolve :
      (run : PendingRun) (w : Scan State)
      → IsAtOrPast run.result (result_row w.state run.result.uid)
      → AllEvolve w (reconcile_pending db scans now run w)
  unfolding reconcile_pending enqueue_one
  reconcile_pending-AllEvolve run w known = elim (Option-cases run.dispatch) [
    | inl e ↦ rw (e, reconcile_pending) (AllEvolve-refl w)
    | inr (d, e) ↦ elim (Bool-cases (belongs_to_relay d)) [
      | inl relayed ↦ rw (e, reconcile_pending) (rw relayed (AllEvolve-refl w))
      | inr stuck ↦
          rw (e, reconcile_pending)
            (rw stuck (
              expire_one-AllEvolve count_pending (retired_reason_of d) run.result
                (record w { report = note_inconsistent run.result now w.report }) known))
    ]
  ]

  AreRunsAtOrPast : Scan State → List PendingRun → Type 0
  AreRunsAtOrPast w runs = All (λ p. IsAtOrPast p.result (result_row w.state p.result.uid)) runs

  reconcile_each-AllEvolve :
      (runs : List PendingRun) (w : Scan State)
      → AreRunsAtOrPast w runs
      → AllEvolve w (reconcile_each db scans now runs w)
  unfolding reconcile_each AreRunsAtOrPast
  reconcile_each-AllEvolve [] w known = AllEvolve-refl w
  reconcile_each-AllEvolve (run ∷ runs) w (first, known) =
      let w' = reconcile_pending db scans now run w in
      let step = reconcile_pending-AllEvolve run w first in
      AllEvolve-trans w w' (reconcile_each db scans now runs w') step (
        reconcile_each-AllEvolve runs w' (
          weaken-All _ _ runs (λ p. Evolves-IsAtOrPast now p.result _ _ (step p.result.uid)) known))

  paired-AreRunsAtOrPast :
      (w : Scan State) (rs : List Result)
      → AreAtOrPast w rs
      → AreRunsAtOrPast w (map (λ q. record { result = q; dispatch = dispatch_of q w.outbox }) rs)
  unfolding AreRunsAtOrPast
  paired-AreRunsAtOrPast w rs known =
      map-All (λ (p : PendingRun). IsAtOrPast p.result (result_row w.state p.result.uid))
        (λ q. record { result = q; dispatch = dispatch_of q w.outbox }) rs known

  reconcile_pending_dispatches-AllEvolve :
      (r : Reconciler) (w : Scan State)
      → AllEvolve w (reconcile_pending_dispatches db scans r now w)
  unfolding reconcile_pending_dispatches stale_pending_runs AreRunsAtOrPast
  reconcile_pending_dispatches-AllEvolve r w = elim (Option-cases (result_rows w.state)) [
    | inl e ↦ rw (e, reconcile_pending_dispatches) (AllEvolve-refl w)
    | inr (rows, e) ↦
        let cutoff = time_before now r.pending_timeout in
        elim (List-cases (stuck_runs rows cutoff r.batch_size)) [
          | inl none_ ↦ rw (e, reconcile_pending_dispatches) (rw none_ (AllEvolve-refl w))
          | inr (run, runs, some_) ↦ elim (Bool-cases (outbox_fails w.state w.outbox)) [
            | inl down ↦
                rw (e, reconcile_pending_dispatches) (rw some_ (rw down (AllEvolve-refl w)))
            | inr up ↦
                let known : AreAtOrPast w (run ∷ runs) = subst (AreAtOrPast w) some_ (
                  take-All _ r.batch_size _ (
                    sort_stable-All _ earlier_created _
                      (where-All _ _ rows (read-AreAtOrPast w rows e)))) in
                rw (e, reconcile_pending_dispatches)
                  (rw some_ (
                    rw up (
                      reconcile_each-AllEvolve
                        (map (λ q. record { result = q; dispatch = dispatch_of q w.outbox })
                          (run ∷ runs))
                        w (paired-AreRunsAtOrPast w (run ∷ runs) known))))
          ]
        ]
  ]

  evict_each-AllEvolve :
      (workers : List Worker) (w : Scan State) → AllEvolve w (evict_each db scans workers w)
  unfolding evict_each evict_one
  evict_each-AllEvolve [] w = AllEvolve-refl w
  evict_each-AllEvolve (worker ∷ workers) w =
      let w' = evict_one db scans worker w in
      AllEvolve-trans w w' (evict_each db scans workers w')
        (λ uid. inl (sym (drop_worker-result_row db scans now w.state worker uid)))
        (evict_each-AllEvolve workers w')

  evict_silent_workers-AllEvolve :
      (r : Reconciler) (w : Scan State) → AllEvolve w (evict_silent_workers db scans r now w)
  unfolding evict_silent_workers
  evict_silent_workers-AllEvolve r w = elim (Bool-cases (is_nonpositive r.worker_retention)) [
    | inl off ↦ rw (off, evict_silent_workers) (AllEvolve-refl w)
    | inr on ↦
        let cutoff = time_before now r.worker_retention in
        elim (Option-cases (silent_workers db scans w.state cutoff r.batch_size)) [
          | inl e ↦ rw (on, evict_silent_workers) (rw e (AllEvolve-refl w))
          | inr (workers, e) ↦ rw (on, evict_silent_workers) (rw e (evict_each-AllEvolve workers w))
        ]
  ]

  same_state-AllEvolve : (w w' : Scan State) → w'.state ≡ w.state → AllEvolve w w'
  same_state-AllEvolve w w' same uid = inl (ap (λ s. result_row s uid) (sym same))

  pub run_passes-AllEvolve :
      (r : Reconciler) (w : Scan State) → AllEvolve w (run_passes db scans r now w)
  unfolding run_passes
  run_passes-AllEvolve r w =
      let w1 = release_abandoned db scans now w in
      let w2 = expire_abandoned_runs db scans r now w1 in
      let w3 = reconcile_pending_dispatches db scans r now w2 in
      let w4 = retire_stale_dispatches db scans r now w3 in
      let w5 = reconcile_runner_channels db scans r w4 in
      let w6 = evict_silent_workers db scans r now w5 in
      AllEvolve-trans w w2 w6
        (AllEvolve-trans w w1 w2
          (same_state-AllEvolve w w1 (release_abandoned-state db scans now w))
          (expire_abandoned_runs-AllEvolve r w1))
        (AllEvolve-trans w2 w3 w6 (reconcile_pending_dispatches-AllEvolve r w2) (
          AllEvolve-trans w3 w5 w6
            (same_state-AllEvolve w3 w5 (
              reconcile_runner_channels-state db scans now r w4
              ∙ retire_stale_dispatches-state db scans now r w3))
            (evict_silent_workers-AllEvolve r w5)))

  -- A scan that nothing else interferes with refines the abstract run: whether or not it gets the
  -- lease, and whatever fails in it, it leaves every run as it was, or moves it, once, from a state
  -- that is not terminal to an expiry with a timeout as its verdict, ended at the time of the scan,
  -- at the next version and with the execution that it had.
  pub run_scan-Evolves :
      (between : LeaseRow → LeaseRow) (r : Reconciler) (row : LeaseRow) (w : Scan State)
      (h : Health) (uid : String)
      → Evolves now
          (result_row w.state uid)
          (result_row (run_scan db scans between r now row w h).1.state uid)
  unfolding run_scan
  run_scan-Evolves between r row w h uid =
      elim (Bool-cases (acquire_scan_lease between r.holder r.lease now row).1) [
        | inl held ↦
            rw (held, run_scan) (run_passes-AllEvolve r (record w { report = new_report now }) uid)
        | inr skipped ↦ rw (skipped, run_scan) (inl refl)
      ]
