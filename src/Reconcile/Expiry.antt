-- ===== src/Reconcile/Expiry.antt =====
-- Which runs the passes expire, and what becomes of their dispatches.
use urth.Prelude.{suc, String, false, ◌≡◌, ◌≢◌, refl, ◌⊎◌, inl, inr, some, All, eq_iff, Time, arith}
use urth.Types.{Result, is_terminal}
use urth.Store.{Database, stored}
use urth.Outbox.{OutboxTable, is_due}
use urth.Outbox.Leases.{update_where-All}
use urth.Reconcile.{
  Scans, repaired, expire_result, expire_run, retired, retire_unpublished, awaits_publication,
}
use urth.Reconcile.Evolution.{expire_run-cases}

-- No relay can claim an entry of the run, whatever the time.
abbrev pub IsWithheld : String → OutboxTable → Type 0
IsWithheld uid table = All (λ e. (now : Time) → e.result_uid ≡ uid → is_due now e ≡ false) table

retire_unpublished-IsWithheld :
    (uid : String) (at : Time) (reason : String) (table : OutboxTable)
    → IsWithheld uid (retire_unpublished uid at reason table)
unfolding is_due
retire_unpublished-IsWithheld uid at reason table =
    update_where-All (λ e. (now : Time) → e.result_uid ≡ uid → is_due now e ≡ false)
      (awaits_publication uid) (retired at reason) table (λ e hit now same. ground arith)
      (λ e other now same. ground (arith, eq_iff e.result_uid uid))

module _ (db : Database) (scans : Scans db) where
  open db use {
    State, result_row, update_result, update_result_applied, update_result_other, result_row_uid,
  }
  open scans use {outbox_fails, result_rows, result_rows_read}

  -- What the expiry of a run rests on, and what it leaves.
  pub record IsExpired (s s' : State) (table : OutboxTable) (r : Result) (at : Time) : Type 0 where
    pub was_open : is_terminal r.status ≡ false
    pub before : Result
    pub row : result_row s r.uid ≡ some before
    pub same_version : before.version ≡ r.version
    pub written :
        result_row s' r.uid ≡ some (stored before (expire_result db scans r at) (suc r.version))
    pub withheld : IsWithheld r.uid table

  -- `ExpireRun` is done entirely or not at all. Where it answers that it expired the run, that was
  -- open when it was read and unchanged since; the row holds the expiry at the next version, and
  -- no relay can claim an entry of the run any more. Where it answers anything else, neither the
  -- runs nor the outbox have changed.
  pub expire_run-IsExpired :
      (s : State) (table : OutboxTable) (r : Result) (at : Time) (reason : String)
      → let (s', table', repair) = expire_run db scans s table r at reason in
        ((repair ≡ repaired) × IsExpired s s' table' r at)
        ⊎ ((repair ≢ repaired) × (s' ≡ s) × (table' ≡ table))
  unfolding expire_result
  expire_run-IsExpired s table r at reason = elim (expire_run-cases db scans s table r at reason) [
    | inr (inl e) ↦ inr (rw e ((λ p. ground arith), refl, refl))
    | inr (inr e) ↦ inr (rw e ((λ p. ground arith), refl, refl))
    | inl (open_, (v, done), e) ↦
        let (before, row, version, bump, after) =
          update_result_applied s (expire_result db scans r at) r.version v done in
        inl (
          rw e (
            refl,
            record {
              was_open = open_;
              before = before;
              row = row;
              same_version = version;
              written = after;
              withheld = retire_unpublished-IsWithheld r.uid at reason table;
            },
          ))
  ]
