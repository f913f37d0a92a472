-- ===== src/Reconcile/Sweep.antt =====
-- The sweep of stale dispatches, the queues of runners, the eviction of workers, and a whole scan.
use urth.Prelude.{
  suc, String, true, not, ◌&&◌, Option, none, some, List, [], ◌∷◌, ◌==◌, if◌then◌else◌, Time,
  time_before, is_nonpositive,
}
use urth.Types.{Worker, Runner}
use urth.Store.{Database}
use urth.Reconcile.ScanLease.{LeaseRow, acquire_scan_lease, release_scan_lease}
use urth.Reconcile.Queries.{Scans, StaleDispatch, silent_workers, stale_dispatches}
use urth.Reconcile.Repairs.{retire_dispatch, drop_worker}
use urth.Reconcile.Passes.{
  ReconcileReport, RunnerChannels, Reconciler, Scan, new_report, fail, counted, terminal_reason,
  should_drop, withdraws, release_abandoned, expire_abandoned_runs, reconcile_pending_dispatches,
}

abbrev pub count_retired : ReconcileReport → ReconcileReport
count_retired report = record report { retired_dispatches = suc report.retired_dispatches }

abbrev pub count_dropped : ReconcileReport → ReconcileReport
count_dropped report = record report { dropped_messages = suc report.dropped_messages }

abbrev pub count_evicted : ReconcileReport → ReconcileReport
count_evicted report = record report { evicted_workers = suc report.evicted_workers }

abbrev pub count_restored : ReconcileReport → ReconcileReport
count_restored report = record report { restored_channels = suc report.restored_channels }

abbrev pub withdrawn_reason : String
withdrawn_reason = "result reached a terminal state; queued message withdrawn"

-- The queues of the runners, one after the other.
unfoldable pub ensure_each : RunnerChannels → List Runner → ReconcileReport → ReconcileReport
ensure_each channels [] report = report
ensure_each channels (runner ∷ runners) report =
    ensure_each channels runners (elim (channels.ensure_runner_channel runner.uid) [
      | none ↦ fail report
      | some restored ↦ if restored then count_restored report else report
    ])

-- The runners that are active.
abbrev pub active : List Runner → List Runner
active [] = []
active (r ∷ rs) = let rest = active rs in if r.is_active then r ∷ rest else rest

-- `record`: the last report and the time of the last scan without a failure.
pub record Health : Type 0 where
  pub last : Option ReconcileReport
  pub last_success : Time

unfoldable pub record_report : ReconcileReport → Health → Health
record_report report h = record {
  last = some report;
  last_success =
      if report.failures == 0 && not report.skipped then report.started_at else h.last_success;
}

module _ (db : Database) (scans : Scans db) where
  open db use {State}
  open scans use {runner_rows}

  unfoldable pub retire_one : Time → StaleDispatch → String → Scan State → Scan State
  unfolding retire_dispatch
  retire_one now d reason w =
      let (table, repair) = retire_dispatch db scans w.state w.outbox d.entry.id now reason in
      record w { outbox = table; report = counted count_retired repair w.report }

  -- An entry whose message cannot be withdrawn stays as it is.
  unfoldable pub retire_stale : Reconciler → Time → StaleDispatch → Scan State → Scan State
  unfolding should_drop retire_one
  retire_stale r now d w =
      if should_drop r d
      then (if withdraws r.channels d.entry
          then retire_one now d withdrawn_reason
              (record w { withdrawn = d.entry ∷ w.withdrawn; report = count_dropped w.report })
          else record w { report = fail w.report })
      else retire_one now d terminal_reason w

  unfoldable pub retire_each : Reconciler → Time → List StaleDispatch → Scan State → Scan State
  unfolding retire_stale
  retire_each r now [] w = w
  retire_each r now (d ∷ ds) w = retire_each r now ds (retire_stale r now d w)

  unfoldable pub retire_stale_dispatches : Reconciler → Time → Scan State → Scan State
  unfolding stale_dispatches retire_each
  retire_stale_dispatches r now w = elim (stale_dispatches db scans w.state w.outbox r.batch_size) [
    | none ↦ record w { report = fail w.report }
    | some stale ↦ retire_each r now stale w
  ]

  unfoldable pub reconcile_runner_channels : Reconciler → Scan State → Scan State
  unfolding ensure_each
  reconcile_runner_channels r w = elim r.channels [
    | none ↦ w
    | some channels ↦ elim (runner_rows w.state) [
      | none ↦ record w { report = fail w.report }
      | some runners ↦ record w { report = ensure_each channels (active runners) w.report }
    ]
  ]

  unfoldable pub evict_one : Worker → Scan State → Scan State
  unfolding drop_worker
  evict_one worker w =
      let (state, repair) = drop_worker db scans w.state worker in
      record w { state = state; report = counted count_evicted repair w.report }

  unfoldable pub evict_each : List Worker → Scan State → Scan State
  unfolding evict_one
  evict_each [] w = w
  evict_each (worker ∷ workers) w = evict_each workers (evict_one worker w)

  unfoldable pub evict_silent_workers : Reconciler → Time → Scan State → Scan State
  unfolding silent_workers evict_each
  evict_silent_workers r now w =
      if is_nonpositive r.worker_retention
      then w
      else elim (silent_workers db scans w.state (time_before now r.worker_retention)
          r.batch_size) [
            | none ↦ record w { report = fail w.report }
            | some workers ↦ evict_each workers w
          ]

  -- The passes of `RunOnce`, in their order.
  unfoldable pub run_passes : Reconciler → Time → Scan State → Scan State
  unfolding release_abandoned expire_abandoned_runs reconcile_pending_dispatches
      retire_stale_dispatches reconcile_runner_channels evict_silent_workers
  run_passes r now w = evict_silent_workers r now (
      reconcile_runner_channels r (
        retire_stale_dispatches r now (
          reconcile_pending_dispatches db scans r now
            (expire_abandoned_runs db scans r now (release_abandoned db scans now w)))))

  -- `RunOnce`: the row of the lease is given, with what other reconcilers do to it; where it cannot
  -- be had, nothing is read or written. A lease query that fails is not modelled.
  unfoldable pub run_scan :
      (LeaseRow → LeaseRow)
      → Reconciler
      → Time
      → LeaseRow
      → Scan State
      → Health
      → LeaseRow × Scan State × Health
  unfolding acquire_scan_lease release_scan_lease run_passes record_report
  run_scan between r now row w h =
      let (taken, held) = acquire_scan_lease between r.holder r.lease now row in
      if held
      then (let w' = run_passes r now (record w { report = new_report now }) in
          (release_scan_lease r.holder now taken, w', record_report w'.report h))
      else (taken, record w { report = record (new_report now) { skipped = true } }, h)
