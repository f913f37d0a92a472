-- ===== src/Tests/Scans.antt =====
-- A reconciler scans the small fleet: its run was claimed, and its worker died.
use urth.Prelude.{
  inl, inr, refl, ◌≡◌, ◌≢◌, ◌⊎◌, true, false, none, some, [], ◌∷◌, All, pos, minutes, hours, Time,
  where_, take, sort_stable,
}
use urth.Types.{Result}
use urth.Store.Memory.{memory, Tables, result_at, worker_at}
use urth.Presence.{is_silent}
use urth.Outbox.{OutboxEntry, has_id, is_null, dispatch_event_uid_of}
use urth.Reconcile.{
  LeaseRow, Reconciler, RunnerChannels, Scan, Health, repaired, new_report, run_scan,
  silent_workers, earlier_uid, expire_run, expire_abandoned_runs, expired_runs,
  retire_stale_dispatches,
}
use urth.Reconcile.Memory.{scans_of, rows_at, update_never_fails}
use urth.Reconcile.Evolution.{Evolves}
use urth.Reconcile.Refinement.{run_scan-Evolves}
use urth.Reconcile.Withdrawal.{IsSettled, retire_stale_dispatches-IsSettled}
use urth.Reconcile.Expiry.{IsExpired, expire_run-IsExpired}
use urth.Reconcile.Overdue.{expire_abandoned_runs-spares}
use urth.Reconcile.Settlement.{HasExpired, expire_abandoned_runs-HasExpired}
use urth.Reconcile.Silence.{silent_workers-is_silent}
use urth.Tests.Fleet.{tables, held, waiting}

abbrev published : OutboxEntry
published = record {
  id = 1;
  schema_version = 1;
  event_uid = "u-1.7";
  result_uid = "u-1";
  result_version = 7;
  scenario_name = "home-page";
  runner_uid = "r-1";
  created_at = 100;
  updated_at = 200;
  published_at = some 200;
  published_seq = 5;
  retired_at = none;
  retired_reason = "";
  not_before = 100;
  attempts = 1;
  last_error = "";
  claimed_by = "";
  claim_expires_at = none;
}

abbrev channels : RunnerChannels
channels = record { ensure_runner_channel = λ uid. some true; drop_dispatch = λ e. true }

abbrev reconciler : Reconciler
reconciler = record {
  holder = "reconciler-1";
  lease = pos (minutes 2);
  batch_size = 10;
  pending_timeout = pos (minutes 90);
  lease_grace = pos (minutes 5);
  worker_retention = pos (hours 24);
  channels = some channels;
}

abbrev now : Time
now = hours 48

abbrev before : Result → Scan Tables
before entry = record {
  state = tables entry;
  outbox = published ∷ [];
  withdrawn = [];
  report = new_report now;
}

abbrev healthy : Health
healthy = record { last = none; last_success = 0 }

abbrev after : LeaseRow × Scan Tables × Health
after =
    run_scan (memory false) (scans_of ("u-1" ∷ []) ("w-1" ∷ [])) (λ row. row) reconciler now none
      (before held) healthy

event_uid_of_version : dispatch_event_uid_of "u-1" 1207 ≡ "u-1.1207"
unfolding dispatch_event_uid_of
event_uid_of_version = refl

run_scan-Evolves_example :
    Evolves now (result_at (tables held) "u-1") (result_at after.1.state "u-1")
run_scan-Evolves_example =
    run_scan-Evolves (memory false) (scans_of ("u-1" ∷ []) ("w-1" ∷ [])) now (λ row. row) reconciler
      none (before held) healthy "u-1"

expire_run-IsExpired_example :
    let (s', table', repair) =
      expire_run
        (memory false)
        (scans_of ("u-1" ∷ []) [])
        (tables held)
        (published ∷ [])
        held
        now
        "lost" in
    ((repair ≡ repaired)
      × IsExpired (memory false) (scans_of ("u-1" ∷ []) []) (tables held) s' table' held now)
    ⊎ ((repair ≢ repaired) × (s' ≡ tables held) × (table' ≡ published ∷ []))
expire_run-IsExpired_example =
    expire_run-IsExpired (memory false) (scans_of ("u-1" ∷ []) []) (tables held) (published ∷ [])
      held now "lost"

-- The run that still waits is not overdue.
expire_abandoned_runs-spares_example :
    result_at
      (expire_abandoned_runs
        (memory false)
        (scans_of ("u-1" ∷ []) [])
        reconciler
        now
        (before waiting)).state
      "u-1"
    ≡ some waiting
unfolding result_at
expire_abandoned_runs-spares_example =
    expire_abandoned_runs-spares (memory false) (scans_of ("u-1" ∷ []) []) now reconciler
      (minutes 5) (before waiting) "u-1" waiting refl refl (inr (inl refl))

expire_abandoned_runs-HasExpired_example :
    All
      (λ c. HasExpired (
        result_at
          (expire_abandoned_runs
            (memory false)
            (scans_of ("u-1" ∷ []) [])
            reconciler
            now
            (before held)).state
          c.uid))
      (held ∷ [])
unfolding expired_runs result_at rows_at
expire_abandoned_runs-HasExpired_example =
    expire_abandoned_runs-HasExpired (memory false) (scans_of ("u-1" ∷ []) []) now
      update_never_fails (λ s table. refl) reconciler (before held) (held ∷ []) refl

-- The sweep alone, of an entry whose run is not there.
retire_stale_dispatches-IsSettled_example :
    let w' =
      retire_stale_dispatches
        (memory false)
        (scans_of [] [])
        reconciler
        now
        (record (before held) { outbox = record published { result_uid = "u-2" } ∷ [] }) in
    All
      (λ e.
        has_id 1 e ≡ true
        → is_null e.retired_at ≡ false
        → IsSettled
            (memory false)
            (scans_of [] [])
            reconciler
            now
            (tables held)
            (record published { result_uid = "u-2" } ∷ [])
            w'.withdrawn
            1)
      w'.outbox
retire_stale_dispatches-IsSettled_example =
    retire_stale_dispatches-IsSettled (memory false) (scans_of [] []) reconciler now
      (record (before held) { outbox = record published { result_uid = "u-2" } ∷ [] }) 1
      ((λ own. refl), tt)

silent_workers-is_silent_example :
    silent_workers (memory false) (scans_of [] ("w-2" ∷ "w-1" ∷ [])) (tables held) 500 10
    ≡ some (
        take 10 (
          sort_stable earlier_uid (
            where_
              (λ w. is_silent w.status 500)
              (rows_at (worker_at (tables held)) ("w-2" ∷ "w-1" ∷ [])))))
silent_workers-is_silent_example =
    silent_workers-is_silent (memory false) (scans_of [] ("w-2" ∷ "w-1" ∷ [])) (tables held) 500 10
      _ refl
