-- ===== src/Reconcile/Passes.antt =====
-- The passes of a scan, each over what its query answers, and `RunOnce`. One reading of the clock
-- serves a scan. The error that a pass answers with is its count of failures.
use Prim.Native.String.{◌++◌ as ◌+ₛ◌}
use urth.Prelude.{
  ℕ, suc, ◌+◌, String, Bool, false, not, ◌&&◌, Option, none, some, List, [], ◌∷◌, ◌==◌,
  if◌then◌else◌, Time, Duration, pos, sub_time, time_before, ltb_ℤ,
}
use urth.Types.{Result}
use urth.Store.{Database}
use urth.Outbox.{OutboxEntry, OutboxTable, is_null}
use urth.Reconcile.Queries.{Scans, PendingRun, StaleDispatch, expired_runs, stale_pending_runs}
use urth.Reconcile.Repairs.{
  Repair, failed_repair, not_needed, repaired, expire_run, enqueue_dispatch,
  release_abandoned_dispatches,
}

-- `ReconcileReport`, less the duration of the scan.
pub record ReconcileReport : Type 0 where
  pub started_at : Time
  pub skipped : Bool
  pub expired_running : ℕ
  pub expired_pending : ℕ
  pub redispatched : ℕ
  pub retired_dispatches : ℕ
  pub dropped_messages : ℕ
  pub released_leases : ℕ
  pub restored_channels : ℕ
  pub evicted_workers : ℕ
  pub failures : ℕ
  pub oldest_inconsistent : Duration

-- The transport's half: whether a queue had to be restored, if that did not fail, and whether a
-- message could be withdrawn.
pub record RunnerChannels : Type 0 where
  pub ensure_runner_channel : String → Option Bool
  pub drop_dispatch : OutboxEntry → Bool

pub record Reconciler : Type 0 where
  pub holder : String
  pub lease : Duration
  pub batch_size : ℕ
  pub pending_timeout : Duration
  pub lease_grace : Duration
  pub worker_retention : Duration
  pub channels : Option RunnerChannels

-- What a scan works on: the database, the outbox, the messages that the transport has withdrawn,
-- the last one first, and the report so far.
pub record Scan (S : Type 0) : Type 0 where
  pub state : S
  pub outbox : OutboxTable
  pub withdrawn : List OutboxEntry
  pub report : ReconcileReport

abbrev pub new_report : Time → ReconcileReport
new_report now = record {
  started_at = now;
  skipped = false;
  expired_running = 0;
  expired_pending = 0;
  redispatched = 0;
  retired_dispatches = 0;
  dropped_messages = 0;
  released_leases = 0;
  restored_channels = 0;
  evicted_workers = 0;
  failures = 0;
  oldest_inconsistent = pos 0;
}

abbrev pub fail : ReconcileReport → ReconcileReport
fail report = record report { failures = suc report.failures }

-- `Repaired`.
unfoldable pub repaired_of : ReconcileReport → ℕ
repaired_of r =
    r.expired_running + r.expired_pending + r.redispatched + r.retired_dispatches
    + r.dropped_messages + r.released_leases + r.restored_channels + r.evicted_workers

-- `noteInconsistent`.
unfoldable pub note_inconsistent : Result → Time → ReconcileReport → ReconcileReport
note_inconsistent r now report = elim r.created_at [
  | none ↦ report
  | some created ↦
      if ltb_ℤ report.oldest_inconsistent (sub_time now created)
      then record report { oldest_inconsistent = sub_time now created }
      else report
]

-- What a repair adds to the report, given what it adds where it is done.
abbrev pub counted :
    (ReconcileReport → ReconcileReport) → Repair → ReconcileReport → ReconcileReport
counted count failed_repair report = fail report
counted count not_needed report = report
counted count repaired report = count report

-- The code appends the deadline to this text.
abbrev pub lease_expired_reason : String
lease_expired_reason = "execution lease expired"

abbrev pub lost_reason : String
lost_reason = "dispatch was published but never delivered"

abbrev pub retired_reason_of : OutboxEntry → String
retired_reason_of e =
    if is_null e.retired_at then lost_reason else "dispatch was retired: " +ₛ e.retired_reason

abbrev pub terminal_reason : String
terminal_reason = "result reached a terminal state"

-- `shouldDrop`.
unfoldable pub should_drop : Reconciler → StaleDispatch → Bool
should_drop r d =
    not (is_null r.channels)
    && (not d.delivered && (not (is_null d.entry.published_at) && not (d.entry.published_seq == 0)))

-- `DropDispatch` of the channels; only asked where there are any.
abbrev pub withdraws : Option RunnerChannels → OutboxEntry → Bool
withdraws none e = false
withdraws (some channels) e = channels.drop_dispatch e

abbrev pub count_running : ReconcileReport → ReconcileReport
count_running report = record report { expired_running = suc report.expired_running }

abbrev pub count_pending : ReconcileReport → ReconcileReport
count_pending report = record report { expired_pending = suc report.expired_pending }

abbrev pub count_redispatched : ReconcileReport → ReconcileReport
count_redispatched report = record report { redispatched = suc report.redispatched }

-- An entry that awaits its publication belongs to the relay.
abbrev pub belongs_to_relay : OutboxEntry → Bool
belongs_to_relay e = is_null e.published_at && is_null e.retired_at

module _ (db : Database) (scans : Scans db) where
  open db use {State}
  open scans use {runner_rows}

  unfoldable pub release_abandoned : Time → Scan State → Scan State
  unfolding release_abandoned_dispatches
  release_abandoned now w = elim (release_abandoned_dispatches db scans w.state w.outbox now) [
    | none ↦ record w { report = fail w.report }
    | some (table, released) ↦ record w {
      outbox = table;
      report = record w.report { released_leases = w.report.released_leases + released };
    }
  ]

  -- `ExpireRun` for one run, in a pass that counts it in its own way.
  unfoldable pub expire_one :
      (ReconcileReport → ReconcileReport) → Time → String → Result → Scan State → Scan State
  unfolding expire_run
  expire_one count now reason r w =
      let (state, table, repair) = expire_run db scans w.state w.outbox r now reason in
      record w { state = state; outbox = table; report = counted count repair w.report }

  unfoldable pub expire_overdue : Time → Result → Scan State → Scan State
  unfolding note_inconsistent expire_one
  expire_overdue now r w =
      expire_one count_running now lease_expired_reason r
        (record w { report = note_inconsistent r now w.report })

  unfoldable pub expire_each : Time → List Result → Scan State → Scan State
  unfolding expire_overdue
  expire_each now [] w = w
  expire_each now (r ∷ rs) w = expire_each now rs (expire_overdue now r w)

  unfoldable pub expire_abandoned_runs : Reconciler → Time → Scan State → Scan State
  unfolding expired_runs expire_each
  expire_abandoned_runs r now w =
      elim (expired_runs db scans w.state (time_before now r.lease_grace) r.batch_size) [
        | none ↦ record w { report = fail w.report }
        | some candidates ↦ expire_each now candidates w
      ]

  unfoldable pub enqueue_one : Time → Result → Scan State → Scan State
  unfolding enqueue_dispatch
  enqueue_one now r w =
      let (table, repair) = enqueue_dispatch db scans w.state w.outbox r now in
      record w { outbox = table; report = counted count_redispatched repair w.report }

  unfoldable pub reconcile_pending : Time → PendingRun → Scan State → Scan State
  unfolding note_inconsistent expire_one enqueue_one
  reconcile_pending now run w =
      let noted = record w { report = note_inconsistent run.result now w.report } in
      elim run.dispatch [
        | none ↦ enqueue_one now run.result noted
        | some e ↦
            if belongs_to_relay e
            then w
            else expire_one count_pending now (retired_reason_of e) run.result noted
      ]

  unfoldable pub reconcile_each : Time → List PendingRun → Scan State → Scan State
  unfolding reconcile_pending
  reconcile_each now [] w = w
  reconcile_each now (run ∷ runs) w = reconcile_each now runs (reconcile_pending now run w)

  unfoldable pub reconcile_pending_dispatches : Reconciler → Time → Scan State → Scan State
  unfolding stale_pending_runs reconcile_each
  reconcile_pending_dispatches r now w =
      elim (stale_pending_runs db scans w.state w.outbox (time_before now r.pending_timeout)
        r.batch_size) [
          | none ↦ record w { report = fail w.report }
          | some runs ↦ reconcile_each now runs w
        ]
