-- ===== src/Reconcile/Overdue.antt =====
-- The pass over the runs that are overdue: it expires those that its query answers, and no other.
use urth.Prelude.{ℕ, ◌+◌, ◌≤◌, ◌⊎◌, pos, sort_stable-All, take-All, where-both, weaken-All}
use urth.Prelude.{
  ℕ, String, true, false, ◌≡◌, ◌≢◌, refl, sym, ap, ◌∙◌, inl, inr, some, List, [], ◌∷◌, All, Time,
  time_before, Option-cases, arith,
}
use mathlib.Core.Option.{some-injective}
use mathlib.Core.Path.{subst}
use urth.Types.{JobStatus, running, is_running, Result}
use urth.Store.{Database}
use urth.Outbox.{OutboxTable}
use urth.Reconcile.{
  Scans, Reconciler, Scan, is_overdue, expired_runs, expire_result, expire_run, expire_one,
  expire_overdue, expire_each, expire_abandoned_runs, earlier_deadline, lease_expired_reason,
}
use urth.Reconcile.Evolution.{expire_run-cases}

is_running-running : (status : JobStatus) → is_running status ≡ true → status ≡ running
is_running-running status h = ground arith

-- A run that is not running, has no deadline on record, or is not yet past it by the grace period.
abbrev pub IsInTime : Time → ℕ → Result → Type 0
IsInTime now grace r = (r.status ≢ running) ⊎ ((r.deadline ≡ 0) ⊎ (now ≤ r.deadline + grace))

IsInTime-is_overdue :
    (now : Time) (grace : ℕ) (r : Result)
    → IsInTime now grace r
    → is_overdue (time_before now (pos grace)) r ≡ false
unfolding is_overdue
IsInTime-is_overdue now grace r h = ground (arith, is_running-running r.status)

module _ (db : Database) (scans : Scans db) (now : Time) where
  open db use {
    State, result_row, update_result, update_result_applied, update_result_other,
    update_result_rejected_version, update_result_rejected,
  }
  open scans use {outbox_fails, result_rows, result_rows_read}

  expire_run-other :
      (s : State) (table : OutboxTable) (r : Result) (at : Time) (reason uid : String)
      → uid ≢ r.uid
      → result_row (expire_run db scans s table r at reason).0 uid ≡ result_row s uid
  unfolding expire_result
  expire_run-other s table r at reason uid other =
      elim (expire_run-cases db scans s table r at reason) [
        | inl (open_, (v, done), e) ↦
            rw e (update_result_other s (expire_result db scans r at) r.version uid other)
        | inr (inl e) ↦ rw e refl
        | inr (inr e) ↦ rw e refl
      ]

  expire_each-other :
      (rs : List Result) (w : Scan State) (uid : String)
      → All (λ r. uid ≢ r.uid) rs
      → result_row (expire_each db scans now rs w).state uid ≡ result_row w.state uid
  unfolding expire_each expire_overdue expire_one
  expire_each-other [] w uid others = refl
  expire_each-other (r ∷ rs) w uid (other, others) =
      expire_each-other rs (expire_overdue db scans now r w) uid others
      ∙ expire_run-other w.state w.outbox r now lease_expired_reason uid other

  pub expired_runs-overdue :
      (s : State) (cutoff : Time) (limit : ℕ) (rs : List Result)
      → expired_runs db scans s cutoff limit ≡ some rs
      → All (λ r. (result_row s r.uid ≡ some r) × (is_overdue cutoff r ≡ true)) rs
  unfolding expired_runs
  expired_runs-overdue s cutoff limit rs h = elim (Option-cases (result_rows s)) [
    | inl e ↦ absurd (ground arith)
    | inr (rows, e) ↦
        let overdue : Result → Type 0 =
          λ r. (result_row s r.uid ≡ some r) × (is_overdue cutoff r ≡ true) in
        subst (λ xs. All overdue xs) (some-injective _ _ (rw (e, expired_runs) at h))
          (take-All overdue limit _ (
            sort_stable-All overdue earlier_deadline _
              (where-both _ (is_overdue cutoff) rows (result_rows_read s rows e))))
  ]

  -- A run that is not running, has no deadline on record, or is not yet past it by the grace
  -- period, is left exactly as it is, whatever the pass does to others.
  pub expire_abandoned_runs-spares :
      (r : Reconciler) (grace : ℕ) (w : Scan State) (uid : String) (row : Result)
      → r.lease_grace ≡ pos grace
      → result_row w.state uid ≡ some row
      → IsInTime now grace row
      → result_row (expire_abandoned_runs db scans r now w).state uid ≡ some row
  unfolding expire_abandoned_runs
  expire_abandoned_runs-spares r grace w uid row known at early_enough =
      let cutoff = time_before now r.lease_grace in
      let early : is_overdue cutoff row ≡ false =
        subst (λ d. is_overdue (time_before now d) row ≡ false) (sym known)
          (IsInTime-is_overdue now grace row early_enough) in
      elim (Option-cases (expired_runs db scans w.state cutoff r.batch_size)) [
        | inl e ↦ rw (e, expire_abandoned_runs) at
        | inr (rs, e) ↦
            rw (e, expire_abandoned_runs)
              (expire_each-other rs w uid (
                  weaken-All _ (λ c. uid ≢ c.uid) rs
                    (λ c late own.
                      let same : c ≡ row =
                        some-injective _ _ (sym late.0 ∙ ap (result_row w.state) (sym own) ∙ at) in
                      absurd (
                        ground (
                          arith,
                          late.1,
                          subst (λ x. is_overdue cutoff x ≡ false) (sym same) early,
                        )))
                    (expired_runs-overdue w.state cutoff r.batch_size rs e))
                ∙ at)
      ]
