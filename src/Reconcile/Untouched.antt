-- ===== src/Reconcile/Untouched.antt =====
-- The passes that touch no run.
use urth.Prelude.{String, ◌≡◌, refl, ◌∙◌, inl, inr, List, [], ◌∷◌, Time, Option-cases, arith}
use urth.Types.{Worker}
use urth.Store.{Database, Write-cases}
use urth.Reconcile.{
  Scans, StaleDispatch, Reconciler, Scan, release_abandoned, retire_one, retire_stale, retire_each,
  retire_stale_dispatches, reconcile_runner_channels, drop_worker, stale_dispatches,
}

module _ (db : Database) (scans : Scans db) (now : Time) where
  open db use {State, result_row}
  open scans use {delete_worker, delete_worker_result}

  -- The sweep of dispatches touches no run.
  retire_stale-state :
      (r : Reconciler) (d : StaleDispatch) (w : Scan State)
      → (retire_stale db scans r now d w).state ≡ w.state
  unfolding retire_stale retire_one
  retire_stale-state r d w = ground arith

  retire_each-state :
      (r : Reconciler) (ds : List StaleDispatch) (w : Scan State)
      → (retire_each db scans r now ds w).state ≡ w.state
  unfolding retire_each
  retire_each-state r [] w = refl
  retire_each-state r (d ∷ ds) w =
      retire_each-state r ds (retire_stale db scans r now d w) ∙ retire_stale-state r d w

  pub retire_stale_dispatches-state :
      (r : Reconciler) (w : Scan State) → (retire_stale_dispatches db scans r now w).state ≡ w.state
  unfolding retire_stale_dispatches
  retire_stale_dispatches-state r w =
      elim (Option-cases (stale_dispatches db scans w.state w.outbox r.batch_size)) [
        | inl e ↦ rw (e, retire_stale_dispatches) refl
        | inr (stale, e) ↦ rw (e, retire_stale_dispatches) (retire_each-state r stale w)
      ]

  pub reconcile_runner_channels-state :
      (r : Reconciler) (w : Scan State) → (reconcile_runner_channels db scans r w).state ≡ w.state
  unfolding reconcile_runner_channels
  reconcile_runner_channels-state r w = ground arith

  pub release_abandoned-state :
      (w : Scan State) → (release_abandoned db scans now w).state ≡ w.state
  unfolding release_abandoned
  release_abandoned-state w = ground arith

  pub drop_worker-result_row :
      (s : State) (worker : Worker) (uid : String)
      → result_row (drop_worker db scans s worker).0 uid ≡ result_row s uid
  unfolding drop_worker
  drop_worker-result_row s worker uid =
      ground (arith, Write-cases (delete_worker s worker).1, delete_worker_result s worker uid)
