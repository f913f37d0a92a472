-- ===== src/Reconcile/Evolution.antt =====
-- What a scan may do to a run: leave it, or expire it, once, from a state that is not terminal.
use urth.Prelude.{
  ℕ, suc, ◌<◌, String, false, ◌≡◌, refl, sym, ap, ◌∙◌, ◌⊎◌, inl, inr, Option, some, ◌=ₛ◌, eq_iff,
  arith, Bool-cases, Time,
}
use mathlib.Core.Option.{some-injective}
use mathlib.Core.Path.{subst}
use urth.Types.{Result, expired, finished_timeout, is_terminal, is_zero}
use urth.Store.{Database, applied, Write-cases, stored}
use urth.Outbox.{OutboxTable}
use urth.Reconcile.{
  Scans, failed_repair, not_needed, repaired, expire_result, expire_run, retire_unpublished,
}

-- The abstract run: from an open state to `expired`, which is final.
pub record IsExpiry (at : Time) (r r' : Result) : Type 0 where
  pub was_open : is_terminal r.status ≡ false
  pub is_expired : r'.status ≡ expired
  pub verdict : r'.result ≡ finished_timeout
  pub has_ended : r'.time_ended ≡ some at
  pub next_version : r'.version ≡ suc r.version
  pub same_run : r'.uid ≡ r.uid
  pub same_execution : r'.execution ≡ r.execution

abbrev pub Evolves : Time → Option Result → Option Result → Type 0
Evolves at a b =
    (a ≡ b) ⊎ ((r : Result) × (r' : Result) × (a ≡ some r) × (b ≡ some r') × IsExpiry at r r')

pub IsExpiry-final : (at : Time) (r r' r'' : Result) → IsExpiry at r r' → IsExpiry at r' r'' → ⊥
IsExpiry-final at r r' r'' first second = ground (arith, first.is_expired, second.was_open)

pub Evolves-trans :
    (at : Time) (a b c : Option Result) → Evolves at a b → Evolves at b c → Evolves at a c
Evolves-trans at a b c (inl p) (inl q) = inl (p ∙ q)
Evolves-trans at a b c (inl p) (inr (r, r', before, after, e)) = inr (r, r', p ∙ before, after, e)
Evolves-trans at a b c (inr (r, r', before, after, e)) (inl q) =
    inr (r, r', before, sym q ∙ after, e)
Evolves-trans at a b c (inr (r, r', before, after, e)) (inr (q, q', before', after', e')) =
    let same = some-injective _ _ (sym after ∙ before') in
    absurd (IsExpiry-final at r r' q' e (subst (λ x. IsExpiry at x q') (sym same) e'))

-- The row of a run that a query read is as it was read, or expired since.
abbrev pub IsAtOrPast : Result → Option Result → Type 0
IsAtOrPast c row =
    (r : Result) × (row ≡ some r) × ((r ≡ c) ⊎ ((c.version < r.version) × (r.status ≡ expired)))

pub Evolves-IsAtOrPast :
    (at : Time) (c : Result) (a b : Option Result)
    → Evolves at a b
    → IsAtOrPast c a
    → IsAtOrPast c b
Evolves-IsAtOrPast at c a b (inl p) (r, row, h) = (r, sym p ∙ row, h)
Evolves-IsAtOrPast at c a b (inr (q, q', before, after, e)) (r, row, h) = (
  q',
  after,
  inr (ground (arith, h, e.is_expired, e.next_version, some-injective _ _ (sym before ∙ row))),
)

module _ (db : Database) (scans : Scans db) where
  open db use {
    State, result_row, update_result, update_result_applied, update_result_other, result_row_uid,
  }
  open scans use {outbox_fails}

  stored-IsExpiry :
      (at : Time) (r : Result)
      → is_terminal r.status ≡ false
      → IsExpiry at r (stored r (expire_result db scans r at) (suc r.version))
  unfolding stored expire_result
  stored-IsExpiry at r open_ = record {
    was_open = open_;
    is_expired = refl;
    verdict = refl;
    has_ended = refl;
    next_version = refl;
    same_run = refl;
    same_execution = ground (arith, Bool-cases (is_zero r.execution));
  }

  -- The four ends of `expire_run`.
  pub expire_run-cases :
      (s : State) (table : OutboxTable) (r : Result) (at : Time) (reason : String)
      → (is_terminal r.status ≡ false)
          × ((v : ℕ) × ((update_result s (expire_result db scans r at) r.version).1 ≡ applied v))
          × (expire_run db scans s table r at reason ≡ (
            (update_result s (expire_result db scans r at) r.version).0,
            retire_unpublished r.uid at reason table,
            repaired,
          ))
        ⊎ ((expire_run db scans s table r at reason ≡ (s, table, not_needed))
            ⊎ (expire_run db scans s table r at reason ≡ (s, table, failed_repair)))
  unfolding expire_run
  expire_run-cases s table r at reason = elim (Bool-cases (is_terminal r.status)) [
    | inl over ↦ inr (inl (rw (over, expire_run) refl))
    | inr open_ ↦
        let written = update_result s (expire_result db scans r at) r.version in
        elim (Write-cases written.1) [
          | inl e ↦ inr (inr (rw (open_, expire_run) (rw e refl)))
          | inr (inl e) ↦ inr (inl (rw (open_, expire_run) (rw e refl)))
          | inr (inr (v, e)) ↦ elim (Bool-cases (outbox_fails written.0 table)) [
            | inl down ↦ inr (inr (rw (open_, expire_run) (rw e (rw down refl))))
            | inr up ↦ inl (open_, (v, e), rw (open_, expire_run) (rw e (rw up refl)))
          ]
        ]
  ]

  -- `ExpireRun`, of a run as it was read or as it has been expired since, evolves every run.
  update_result-Evolves :
      (s : State) (r : Result) (at : Time) (v : ℕ) (uid : String)
      → is_terminal r.status ≡ false
      → IsAtOrPast r (result_row s r.uid)
      → (update_result s (expire_result db scans r at) r.version).1 ≡ applied v
      → Evolves at
          (result_row s uid)
          (result_row (update_result s (expire_result db scans r at) r.version).0 uid)
  unfolding expire_result
  update_result-Evolves s r at v uid open_ (q, row, known) done = elim (Bool-cases (uid =ₛ r.uid)) [
    | inr other ↦ inl (
        sym (
          update_result_other s (expire_result db scans r at) r.version uid
            (ground (arith, eq_iff uid r.uid))))
    | inl own ↦
        let (p, found_, version, bump, after) =
          update_result_applied s (expire_result db scans r at) r.version v done in
        let same : p ≡ r = ground (arith, some-injective _ _ (sym found_ ∙ row), known, version) in
        let here : uid ≡ r.uid = ground (arith, eq_iff uid r.uid) in
        let e = expire_result db scans r at in
        inr (
          r,
          stored r e (suc r.version),
          ap (result_row s) here ∙ found_ ∙ ap some same,
          ap (result_row (update_result s e r.version).0) here
              ∙ after
              ∙ ap (λ x. some (stored x e (suc r.version))) same,
          stored-IsExpiry at r open_,
        )
  ]

  -- `ExpireRun`, of a run as it was read or as it has been expired since, evolves every run.
  pub expire_run-Evolves :
      (s : State) (table : OutboxTable) (r : Result) (at : Time) (reason uid : String)
      → IsAtOrPast r (result_row s r.uid)
      → Evolves at (result_row s uid) (result_row (expire_run db scans s table r at reason).0 uid)
  expire_run-Evolves s table r at reason uid known = elim (expire_run-cases s table r at reason) [
    | inl (open_, (v, done), e) ↦ rw e (update_result-Evolves s r at v uid open_ known done)
    | inr (inl e) ↦ inl (rw e refl)
    | inr (inr e) ↦ inl (rw e refl)
  ]
