-- ===== src/Failure/Attempt.antt =====
-- A failure is retried at most once, by a run that is to do what the stranded one was to do.
use urth.Prelude.{
  ℕ, suc, String, Bool, false, ◌≡◌, ◌≢◌, refl, sym, ap, ◌∙◌, ◌⊎◌, inl, inr, some, Time, arith,
  Bool-cases, Option-cases, ◌=ₛ◌, eq_iff,
}
use urth.Types.{Result, is_zero}
use urth.Store.{Database, found, applied, Write-cases}
use urth.Store.Creation.{Creation}
use urth.Claim.Checks.{Fetch-cases}
use urth.Outbox.{OutboxTable}
use urth.Failure.{
  DispatchFailure, FailureTable, Ledger, Faults, RetryAnswer, retried, retry_of, insert_dispatch,
  linked, mark_resolved, retry_run, retry_dispatch_failure,
}

module _ (db : Database) (creation : Creation db) (table : FailureTable) where
  open db use {State, result_row, get_result, get_result_reads, merge_labels}
  open creation use {
    create_result, create_result_row, create_result_new, create_result_other, create_result_keeps,
  }
  open table use {Table, failure_row, update, update_applied}

  module _ (name : String) (f : DispatchFailure) (resolve : Bool) (at : Time)
      (w : Ledger State Table) where
    -- What a retry that is made has done.
    pub record HasRetried (out : Ledger State Table × RetryAnswer) : Type 0 where
      pub original : Result
      pub made : State × Result
      pub outbox : OutboxTable
      pub version : ℕ
      pub enqueue_fails : Bool
      pub unlinked : f.status.retry_result_uid ≡ ""
      pub read : get_result w.runs f.spec.result_uid ≡ found original
      pub described : is_zero original.execution ≡ false
      pub created : create_result w.runs (retry_of name original f) ≡ some made
      pub enqueued : insert_dispatch enqueue_fails made.1 at w.outbox ≡ some outbox
      pub written :
          (update w.failures (linked merge_labels f made.1 resolve at) f.version).1
          ≡ applied version
      pub outcome : out ≡ (
        record {
          runs = made.0;
          failures = (update w.failures (linked merge_labels f made.1 resolve at) f.version).0;
          outbox = outbox;
        },
        retried (linked merge_labels f made.1 resolve at) made.1,
      )

    abbrev pub IsNotRetried : Ledger State Table × RetryAnswer → Type 0
    IsNotRetried out = (out.0 ≡ w) × ((g : DispatchFailure) → (q : Result) → out.1 ≢ retried g q)

    retry_run-cases :
        (faults : Faults) (original : Result)
        → f.status.retry_result_uid ≡ ""
        → get_result w.runs f.spec.result_uid ≡ found original
        → is_zero original.execution ≡ false
        → IsNotRetried (retry_run db creation table faults name f original resolve at w)
          ⊎ HasRetried (retry_run db creation table faults name f original resolve at w)
    unfolding retry_run
    retry_run-cases faults original unlinked read described = elim (Bool-cases faults.begin_fails) [
      | inl b ↦ inl (rw (b, retry_run) (refl, λ g q h. ground arith))
      | inr b ↦ elim (Option-cases (create_result w.runs (retry_of name original f))) [
        | inl c ↦ inl (rw (b, retry_run) (rw c (refl, λ g q h. ground arith)))
        | inr (made, c) ↦
            elim (Option-cases (insert_dispatch faults.enqueue_fails made.1 at w.outbox)) [
              | inl i ↦ inl (rw (b, retry_run) (rw c (rw i (refl, λ g q h. ground arith))))
              | inr (outbox, i) ↦
                  let f' = linked merge_labels f made.1 resolve at in
                  elim (Write-cases (update w.failures f' f.version).1) [
                    | inl e ↦
                        inl (rw (b, retry_run) (rw c (rw i (rw e (refl, λ g q h. ground arith)))))
                    | inr (inl e) ↦
                        inl (rw (b, retry_run) (rw c (rw i (rw e (refl, λ g q h. ground arith)))))
                    | inr (inr (v, e)) ↦ elim (Bool-cases faults.commit_fails) [
                      | inl k ↦ inl (
                          rw (b, retry_run)
                            (rw c (rw i (rw e (rw k (refl, λ g q h. ground arith))))))
                      | inr k ↦ inr (record {
                        original = original;
                        made = made;
                        outbox = outbox;
                        version = v;
                        enqueue_fails = faults.enqueue_fails;
                        unlinked = unlinked;
                        read = read;
                        described = described;
                        created = c;
                        enqueued = i;
                        written = e;
                        outcome = rw (b, retry_run) (rw c (rw i (rw e (rw k refl))));
                      })
                    ]
                  ]
            ]
      ]
    ]

    pub retry_dispatch_failure-cases :
        (faults : Faults)
        → IsNotRetried (retry_dispatch_failure db creation table faults name f resolve at w)
          ⊎ HasRetried (retry_dispatch_failure db creation table faults name f resolve at w)
    unfolding retry_dispatch_failure
    retry_dispatch_failure-cases faults = elim (Bool-cases (f.status.retry_result_uid =ₛ "")) [
      | inr done ↦ inl (rw (done, retry_dispatch_failure) (refl, λ g q h. ground arith))
      | inl fresh ↦ elim (Bool-cases (f.spec.result_uid =ₛ "")) [
        | inl unnamed ↦
            inl (rw (fresh, retry_dispatch_failure) (rw unnamed (refl, λ g q h. ground arith)))
        | inr named ↦ elim (Fetch-cases (get_result w.runs f.spec.result_uid)) [
          | inl e ↦
              inl
                (rw (fresh, retry_dispatch_failure) (rw named (rw e (refl, λ g q h. ground arith))))
          | inr (inl e) ↦
              inl
                (rw (fresh, retry_dispatch_failure) (rw named (rw e (refl, λ g q h. ground arith))))
          | inr (inr (original, e)) ↦ elim (Bool-cases (is_zero original.execution)) [
            | inl bare ↦ inl (
                rw (fresh, retry_dispatch_failure)
                  (rw named (rw e (rw bare (refl, λ g q h. ground arith)))))
            | inr described ↦
                rw (fresh, retry_dispatch_failure)
                  (rw named (
                    rw e (
                      rw described (
                        retry_run-cases faults original
                          (ground (arith, eq_iff f.status.retry_result_uid "")) e described))))
          ]
        ]
      ]
    ]

  linked-uid :
      (f : DispatchFailure) (q : Result) (resolve : Bool) (at : Time)
      → (linked merge_labels f q resolve at).uid ≡ f.uid
  unfolding linked mark_resolved
  linked-uid f q resolve at = ground arith

  -- The write that links the failure has moved its row on to the next version.
  pub HasRetried-version :
      (name : String) (f : DispatchFailure) (resolve : Bool) (at : Time) (w : Ledger State Table)
      (out : Ledger State Table × RetryAnswer)
      → HasRetried name f resolve at w out
      → (g : DispatchFailure) × (failure_row out.0.failures f.uid ≡ some g)
        × (g.version ≡ suc f.version)
  HasRetried-version name f resolve at w out h =
      let f' = linked merge_labels f h.made.1 resolve at in
      let (r, row, same, bump, after) =
        update_applied w.failures f' f.version h.version h.written in
      let own = linked-uid f h.made.1 resolve at in
      (
        _,
        ap (λ o. failure_row o.0.failures f.uid) h.outcome
            ∙ ap (failure_row (update w.failures f' f.version).0) (sym own)
            ∙ after,
        refl,
      )

  pub HasRetried-current :
      (name : String) (f : DispatchFailure) (resolve : Bool) (at : Time) (w : Ledger State Table)
      (out : Ledger State Table × RetryAnswer)
      → HasRetried name f resolve at w out
      → (g : DispatchFailure) × (failure_row w.failures f.uid ≡ some g) × (g.version ≡ f.version)
  HasRetried-current name f resolve at w out h =
      let f' = linked merge_labels f h.made.1 resolve at in
      let (r, row, same, bump, after) =
        update_applied w.failures f' f.version h.version h.written in
      (r, ap (failure_row w.failures) (sym (linked-uid f h.made.1 resolve at)) ∙ row, same)
