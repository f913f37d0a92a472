-- ===== src/Reconcile/Settlement.antt =====
-- Where nothing fails, the pass over the runs that are overdue settles each one of its batch.
use urth.Prelude.{
  ℕ, suc, false, ◌≡◌, ◌≢◌, refl, sym, ap, ◌∙◌, inl, inr, Option, some, List, [], ◌∷◌, All, Time,
  time_before, arith, weaken-All, String,
}
use mathlib.Core.Option.{some-injective}
use urth.Types.{Result, is_terminal, expired}
use urth.Store.{Database, failed_write, Write-cases, stored}
use urth.Outbox.{OutboxTable}
use urth.Reconcile.{
  Scans, Reconciler, Scan, is_overdue, expired_runs, expire_result, expire_run, expire_one,
  expire_overdue, expire_each, expire_abandoned_runs, lease_expired_reason,
}
use urth.Reconcile.Evolution.{Evolves, IsAtOrPast, Evolves-IsAtOrPast}
use urth.Reconcile.Refinement.{expire_each-AllEvolve, expire_overdue-AllEvolve}
use urth.Reconcile.Overdue.{expired_runs-overdue}

abbrev pub HasExpired : Option Result → Type 0
HasExpired row = (q : Result) × (row ≡ some q) × (q.status ≡ expired)

Evolves-HasExpired :
    (at : Time) (a b : Option Result) → Evolves at a b → HasExpired a → HasExpired b
Evolves-HasExpired at a b (inl same) (q, row, over) = (q, sym same ∙ row, over)
Evolves-HasExpired at a b (inr (r, r', before, after, e)) (q, row, over) =
    let same : r ≡ q = some-injective _ _ (sym before ∙ row) in
    absurd (ground (arith, e.was_open, ap (λ x. is_terminal x.status) same, over))

module _ (db : Database) (scans : Scans db) (now : Time) where
  open db use {
    State, result_row, update_result, update_result_applied, update_result_rejected_version,
  }
  open scans use {outbox_fails}

  module _ (writes : (s : State) (e : Result) (v : ℕ) → (update_result s e v).1 ≢ failed_write)
      (commits : (s : State) (table : OutboxTable) → outbox_fails s table ≡ false) where
    expire_run-HasExpired :
        (s : State) (table : OutboxTable) (r : Result) (reason : String)
        → is_terminal r.status ≡ false
        → IsAtOrPast r (result_row s r.uid)
        → HasExpired (result_row (expire_run db scans s table r now reason).0 r.uid)
    unfolding expire_run expire_result stored
    expire_run-HasExpired s table r reason open_ (q, row, known) =
        let e = expire_result db scans r now in
        let written = update_result s e r.version in
        elim (Write-cases written.1) [
          | inl down ↦ absurd (writes s e r.version down)
          | inr (inl lost) ↦
              let other = update_result_rejected_version s e q r.version lost row in
              rw (open_, expire_run) (rw lost (q, row, ground (arith, other, known)))
          | inr (inr (v, done)) ↦
              let (p, found_, version, bump, after) = update_result_applied s e r.version v done in
              rw (open_, expire_run)
                (rw done (rw (commits written.0 table) (stored p e (suc r.version), after, refl)))
        ]

    expire_each-HasExpired :
        (rs : List Result) (w : Scan State)
        → All (λ r. IsAtOrPast r (result_row w.state r.uid) × (is_terminal r.status ≡ false)) rs
        → All (λ r. HasExpired (result_row (expire_each db scans now rs w).state r.uid)) rs
    unfolding expire_each expire_overdue expire_one
    expire_each-HasExpired [] w known = tt
    expire_each-HasExpired (r ∷ rs) w (first, known) =
        let w' = expire_overdue db scans now r w in
        let later =
          weaken-All _
            (λ c. IsAtOrPast c (result_row w'.state c.uid) × (is_terminal c.status ≡ false)) rs
            (λ c k. (
              Evolves-IsAtOrPast now c _ _ (expire_overdue-AllEvolve db scans now r w first.0 c.uid)
                  k.0,
              k.1,
            ))
            known in
        (
          Evolves-HasExpired now _ _
              (expire_each-AllEvolve db scans now rs w' (weaken-All _ _ rs (λ c k. k.0) later)
                r.uid)
              (expire_run-HasExpired w.state w.outbox r lease_expired_reason first.1 first.0),
          expire_each-HasExpired rs w' later,
        )

    -- Where no write and no transaction fails, every run that the query of the pass answers has
    -- expired when the pass ends.
    pub expire_abandoned_runs-HasExpired :
        (r : Reconciler) (w : Scan State) (rs : List Result)
        → expired_runs db scans w.state (time_before now r.lease_grace) r.batch_size ≡ some rs
        → All (λ c. HasExpired (result_row (expire_abandoned_runs db scans r now w).state c.uid)) rs
    unfolding expire_abandoned_runs is_overdue
    expire_abandoned_runs-HasExpired r w rs answered =
        rw (answered, expire_abandoned_runs)
          (expire_each-HasExpired rs w (
            weaken-All _ _ rs (λ c late. ((c, late.0, inl refl), ground (arith, late.1)))
              (expired_runs-overdue db scans now w.state _ r.batch_size rs answered)))
