-- ===== src/Reconcile/Silence.antt =====
-- The query for silent workers and the test of one worker say the same.
use urth.Prelude.{ℕ, ◌≡◌, some, List, where_, take, sort_stable, Time, arith}
use urth.Types.{Worker, WorkerStatus}
use urth.Store.{Database}
use urth.Presence.{is_silent}
use urth.Reconcile.{Scans, is_silent_row, silent_workers, earlier_uid}

is_silent_row_lem : (w : WorkerStatus) (cutoff : Time) → is_silent_row cutoff w ≡ is_silent w cutoff
unfolding is_silent_row is_silent
is_silent_row_lem w cutoff = ground arith

-- The conditions of the query select the workers that are silent by `IsSilent`: it answers, in the
-- order of their UIDs and up to the limit, those of the registered workers, and no other.
pub silent_workers-is_silent :
    (db : Database) (scans : Scans db) (s : db.State) (cutoff : Time) (limit : ℕ)
    (rows : List Worker)
    → scans.worker_rows s ≡ some rows
    → silent_workers db scans s cutoff limit
      ≡ some (take limit (sort_stable earlier_uid (where_ (λ w. is_silent w.status cutoff) rows)))
unfolding silent_workers
silent_workers-is_silent db scans s cutoff limit rows answered =
    rw (answered, silent_workers)
      (λ i. some (
        take limit
          (sort_stable earlier_uid (where_ (λ w. is_silent_row_lem w.status cutoff i) rows))))
