-- ===== src/Reconcile/Withdrawal.antt =====
-- No message is left in a queue behind a dispatch that the sweep has retired.
use urth.Prelude.{sort_stable-All, take-All, map-All, where-both, weaken-All, All-Mem}
use urth.Prelude.{
  ℕ, String, Bool, true, false, ◌&&◌, ◌≡◌, refl, inl, inr, some, List, [], ◌∷◌, All, Mem, Time,
  Bool-cases, Option-cases, arith,
}
use mathlib.Core.Path.{subst}
use mathlib.Core.Option.{some-injective}
use urth.Store.{Database}
use urth.Outbox.{OutboxEntry, OutboxTable, has_id, is_id_of, is_null}
use urth.Outbox.Leases.{update_where-changes}
use urth.Reconcile.{
  Scans, StaleDispatch, Reconciler, Scan, is_unwanted, is_delivered, should_drop, withdraws,
  retire_dispatch, retire_one, retire_stale, retire_each, retire_stale_dispatches, stale_dispatches,
  count_dropped, terminal_reason, withdrawn_reason,
}

module _ (db : Database) (scans : Scans db) (r : Reconciler) (now : Time) where
  open db use {State}
  open scans use {outbox_fails}

  -- An entry was rightly retired, given the table as it was and the messages that were withdrawn:
  -- a row of that number stood for a run that does not want it, and its message, where there is one
  -- that nobody collected, was withdrawn.
  abbrev pub IsSettled : State → OutboxTable → List OutboxEntry → ℕ → Type 0
  IsSettled s before withdrawn id =
      (e : OutboxEntry) × Mem e before
      × (e.id ≡ id)
      × (is_unwanted db scans s e ≡ true)
      × (should_drop r (record { entry = e; delivered = is_delivered db scans s e }) ≡ true
          → is_id_of id withdrawn ≡ true)

  abbrev pub RetiredAreSettled : State → OutboxTable → ℕ → List OutboxEntry → OutboxTable → Type 0
  RetiredAreSettled s before id withdrawn table =
      All (λ e. has_id id e ≡ true → is_null e.retired_at ≡ false → IsSettled s before withdrawn id)
        table

  abbrev IsStale : State → OutboxTable → StaleDispatch → Type 0
  IsStale s before d =
      Mem d.entry before
      × (is_unwanted db scans s d.entry ≡ true)
      × (d.delivered ≡ is_delivered db scans s d.entry)

  withdraw_more :
      (s : State) (before : OutboxTable) (id : ℕ) (e : OutboxEntry) (withdrawn : List OutboxEntry)
      (table : OutboxTable)
      → RetiredAreSettled s before id withdrawn table
      → RetiredAreSettled s before id (e ∷ withdrawn) table
  withdraw_more s before id e withdrawn table h =
      weaken-All _ _ table
        (λ x old own gone.
          let (q, row, same, unwanted, drop) = old own gone in
          (q, row, same, unwanted, λ need. ground (arith, drop need)))
        h

  retire_one-Settled :
      (s : State) (before : OutboxTable) (id : ℕ) (d : StaleDispatch) (reason : String)
      (w : Scan State)
      → IsStale s before d
      → (should_drop r d ≡ true → is_id_of d.entry.id w.withdrawn ≡ true)
      → RetiredAreSettled s before id w.withdrawn w.outbox
      → RetiredAreSettled s before id w.withdrawn (retire_one db scans now d reason w).outbox
  unfolding retire_one retire_dispatch
  retire_one-Settled s before id d reason w (row, unwanted, delivered) drop h =
      elim (Bool-cases (outbox_fails w.state w.outbox)) [
        | inl down ↦ rw (down, retire_one) h
        | inr up ↦
            rw (up, retire_one)
              (update_where-changes _ _ _ _ w.outbox
                (λ e hit old own gone.
                  let same : d.entry.id ≡ id = ground arith in
                  (
                    d.entry,
                    row,
                    same,
                    unwanted,
                    λ need.
                        subst (λ i. is_id_of i w.withdrawn ≡ true) same (drop (rw delivered need)),
                  ))
                (λ e other old. old) h)
      ]

  retire_stale-Settled :
      (s : State) (before : OutboxTable) (id : ℕ) (d : StaleDispatch) (w : Scan State)
      → IsStale s before d
      → RetiredAreSettled s before id w.withdrawn w.outbox
      → RetiredAreSettled s before id
          (retire_stale db scans r now d w).withdrawn
          (retire_stale db scans r now d w).outbox
  unfolding retire_stale
  retire_stale-Settled s before id d w stale h = elim (Bool-cases (should_drop r d)) [
    | inr keep ↦
        rw (keep, retire_stale)
          (retire_one-Settled s before id d terminal_reason w stale (λ need. absurd (ground arith))
            h)
    | inl drop ↦ elim (Bool-cases (withdraws r.channels d.entry)) [
      | inr stuck ↦ rw (drop, retire_stale) (rw stuck h)
      | inl gone ↦
          let w' = record w {
            withdrawn = d.entry ∷ w.withdrawn;
            report = count_dropped w.report;
          } in
          rw (drop, retire_stale)
            (rw gone (
              retire_one-Settled s before id d withdrawn_reason w' stale (λ need. ground arith)
                (withdraw_more s before id d.entry w.withdrawn w.outbox h)))
    ]
  ]

  retire_each-Settled :
      (s : State) (before : OutboxTable) (id : ℕ) (ds : List StaleDispatch) (w : Scan State)
      → All (IsStale s before) ds
      → RetiredAreSettled s before id w.withdrawn w.outbox
      → RetiredAreSettled s before id
          (retire_each db scans r now ds w).withdrawn
          (retire_each db scans r now ds w).outbox
  unfolding retire_each
  retire_each-Settled s before id [] w stale h = h
  retire_each-Settled s before id (d ∷ ds) w (first, stale) h =
      retire_each-Settled s before id ds (retire_stale db scans r now d w) stale
        (retire_stale-Settled s before id d w first h)

  stale_dispatches-Stale :
      (s : State) (table : OutboxTable) (limit : ℕ) (stale : List StaleDispatch)
      → stale_dispatches db scans s table limit ≡ some stale
      → All (IsStale s table) stale
  unfolding stale_dispatches
  stale_dispatches-Stale s table limit stale h = elim (Bool-cases (outbox_fails s table)) [
    | inl down ↦ absurd (ground arith)
    | inr up ↦
        let chosen : OutboxEntry → Bool = λ e. is_null e.retired_at && is_unwanted db scans s e in
        subst (λ ds. All (IsStale s table) ds) (some-injective _ _ (rw (up, stale_dispatches) at h))
          (map-All (IsStale s table) _ _ (
            take-All _ limit _ (
              sort_stable-All _ _ _ (
                weaken-All (λ e. Mem e table × (chosen e ≡ true)) _ _
                  (λ e picked. (picked.0, ground (arith, picked.1), refl))
                  (where-both (λ e. Mem e table) chosen table (All-Mem table))))))
  ]

  -- A sweep over an outbox in which an entry is not retired yet: if it is afterwards, then its run is
  -- gone, deleted or finished, and, where the transport has queues, its message was published at a
  -- known address, and the run was not claimed through it, the transport has withdrawn the message.
  pub retire_stale_dispatches-IsSettled :
      (w : Scan State) (id : ℕ)
      → All (λ e. has_id id e ≡ true → is_null e.retired_at ≡ true) w.outbox
      → let w' = retire_stale_dispatches db scans r now w in
        All
          (λ e.
            has_id id e ≡ true
            → is_null e.retired_at ≡ false
            → IsSettled w.state w.outbox w'.withdrawn id)
          w'.outbox
  unfolding retire_stale_dispatches
  retire_stale_dispatches-IsSettled w id fresh =
      let unretired : RetiredAreSettled w.state w.outbox id w.withdrawn w.outbox =
        weaken-All _ _ w.outbox (λ e live own gone. absurd (ground (arith, live own))) fresh in
      elim (Option-cases (stale_dispatches db scans w.state w.outbox r.batch_size)) [
        | inl e ↦ rw (e, retire_stale_dispatches) unretired
        | inr (stale, e) ↦
            rw (e, retire_stale_dispatches)
              (retire_each-Settled w.state w.outbox id stale w
                (stale_dispatches-Stale w.state w.outbox r.batch_size stale e) unretired)
      ]
