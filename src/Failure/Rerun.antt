-- ===== src/Failure/Rerun.antt =====
-- Who wins when a failure is retried twice, and what the retry is to do.
use urth.Prelude.{
  String, Bool, true, ◌||◌, ◌≡◌, ◌≢◌, refl, sym, ap, ◌∙◌, inl, inr, none, some, [], ◌∷◌, ◌++◌, Time,
  arith, Bool-cases, ltb, length, where_,
}
use mathlib.Core.Option.{some-injective}
use mathlib.Core.Path.{subst}
use urth.Types.{Result, pending}
use urth.Store.{Database}
use urth.Store.Creation.{Creation}
use urth.Outbox.{OutboxEntry, OutboxTable, new_dispatch_outbox_entry, is_due, dispatch_event_uid_of}
use urth.Reconcile.{has_event}
use urth.Failure.{
  DispatchFailure, FailureTable, Ledger, Faults, RetryAnswer, retried, retry_of, insert_dispatch,
  retry_dispatch_failure, linked,
}
use urth.Failure.Attempt.{
  HasRetried, retry_dispatch_failure-cases, HasRetried-version, HasRetried-current,
}

-- The entry of a run that was put into the outbox: the first with its event, and due.
pub record IsEnqueued (r : Result) (at : Time) (before after : OutboxTable) : Type 0 where
  pub entry : OutboxEntry
  pub appended : after ≡ before ++ (entry ∷ [])
  pub event : entry.event_uid ≡ dispatch_event_uid_of r.uid r.version
  pub for_run : entry.result_uid ≡ r.uid
  pub for_version : entry.result_version ≡ r.version
  pub for_runner : entry.runner_uid ≡ r.executor.runner_id
  pub due : is_due at entry ≡ true

pub insert_dispatch-IsEnqueued :
    (fails : Bool) (r : Result) (at : Time) (before after : OutboxTable)
    → insert_dispatch fails r at before ≡ some after
    → IsEnqueued r at before after
unfolding insert_dispatch new_dispatch_outbox_entry is_due
insert_dispatch-IsEnqueued fails r at before after h =
    elim (Bool-cases (
      fails
      || ltb 0 (length (where_ (has_event (new_dispatch_outbox_entry r at).event_uid) before)))) [
        | inl e ↦ absurd (ground arith)
        | inr e ↦ record {
          entry = _;
          appended = sym (some-injective _ _ (rw (e, insert_dispatch) at h));
          event = refl;
          for_run = refl;
          for_version = refl;
          for_runner = refl;
          due = ground arith;
        }
      ]

module _ (db : Database) (creation : Creation db) (table : FailureTable) where
  open db use {State, result_row, get_result, get_result_reads, merge_labels}
  open creation use {
    create_result, create_result_row, create_result_new, create_result_other, create_result_keeps,
  }
  open table use {Table, failure_row}

  -- A new run stands beside the stranded one, to do the same on the same runner.
  pub record IsRerun (w w' : Ledger State Table) (f : DispatchFailure) (at : Time) (r : Result)
      : Type 0 where
    pub original : Result
    pub stranded : result_row w.runs f.spec.result_uid ≡ some original
    pub untouched : result_row w'.runs f.spec.result_uid ≡ some original
    pub was_absent : result_row w.runs r.uid ≡ none
    pub new_row : result_row w'.runs r.uid ≡ some r
    pub is_pending : r.status ≡ pending
    pub same_execution : r.execution ≡ original.execution
    pub same_runner : r.executor.runner_id ≡ original.executor.runner_id
    pub no_worker : r.executor.worker_id ≡ ""
    pub enqueued : IsEnqueued r at w.outbox w'.outbox

  HasRetried-IsRerun :
      (name : String) (f : DispatchFailure) (resolve : Bool) (at : Time) (w : Ledger State Table)
      (out : Ledger State Table × RetryAnswer)
      → (h : HasRetried db creation table name f resolve at w out) → IsRerun w out.0 f at h.made.1
  unfolding retry_of
  HasRetried-IsRerun name f resolve at w out h =
      let q = h.made.1 in
      let e = retry_of name h.original f in
      let row = rw h.read at (get_result_reads w.runs f.spec.result_uid) in
      let new = create_result_new w.runs e h.made h.created in
      let keeps = create_result_keeps w.runs e h.made h.created in
      record {
        original = h.original;
        stranded = row;
        untouched =
            ap (λ o. result_row o.0.runs f.spec.result_uid) h.outcome
            ∙ create_result_other w.runs e h.made f.spec.result_uid h.created
                (λ same. ground (arith, sym row ∙ ap (result_row w.runs) same ∙ new))
            ∙ row;
        was_absent = new;
        new_row =
            ap (λ o. result_row o.0.runs q.uid) h.outcome
            ∙ create_result_row w.runs e h.made h.created;
        is_pending = ap (λ x. x.status) keeps;
        same_execution = ap (λ x. x.execution) keeps;
        same_runner = ap (λ x. x.executor.runner_id) keeps;
        no_worker = ap (λ x. x.executor.worker_id) keeps;
        enqueued =
            subst (λ t. IsEnqueued q at w.outbox t) (sym (ap (λ o. o.0.outbox) h.outcome))
              (insert_dispatch-IsEnqueued h.enqueue_fails q at w.outbox h.outbox h.enqueued);
      }

  -- Two operators hold the same version of a failure, and the first one's retry is made: the retry
  -- of the second is not, and changes nothing. The run that was made is a new row, pending, with the
  -- execution and the runner of the stranded run, which stays as it is; the outbox has one entry
  -- more, which is due, for the new run on that runner.
  pub retry_dispatch_failure-once :
      (name name' : String) (f g : DispatchFailure) (resolve resolve' : Bool) (at at' : Time)
      (faults faults' : Faults) (w : Ledger State Table) (linked_f : DispatchFailure)
      (made : Result)
      → g.uid ≡ f.uid
      → g.version ≡ f.version
      → (retry_dispatch_failure db creation table faults name f resolve at w).1
        ≡ retried linked_f made
      → let w' = (retry_dispatch_failure db creation table faults name f resolve at w).0 in
        let again = retry_dispatch_failure db creation table faults' name' g resolve' at' w' in
        IsRerun w w' f at made
        × (again.0 ≡ w')
        × ((h : DispatchFailure) → (q : Result) → again.1 ≢ retried h q)
  retry_dispatch_failure-once name name' f g resolve resolve' at at' faults faults' w linked_f made
        same_uid same_version done =
      let first = retry_dispatch_failure db creation table faults name f resolve at w in
      elim (retry_dispatch_failure-cases db creation table name f resolve at w faults) [
        | inl nothing ↦ absurd (nothing.1 linked_f made done)
        | inr h ↦
            let named : retried (linked merge_labels f h.made.1 resolve at) h.made.1
                ≡ retried linked_f made =
              sym (ap (λ o. o.1) h.outcome) ∙ done in
            let rerun : IsRerun w first.0 f at made =
              subst (λ q. IsRerun w first.0 f at q) (ground (arith, named))
                (HasRetried-IsRerun name f resolve at w first h) in
            elim (retry_dispatch_failure-cases db creation table name' g resolve' at' first.0
              faults') [
                | inl nothing ↦ (rerun, nothing.0, nothing.1)
                | inr h' ↦
                    let (x, row, next) =
                      HasRetried-version db creation table name f resolve at w first h in
                    let (y, row', current) =
                      HasRetried-current db creation table name' g resolve' at' first.0 _ h' in
                    let same : x ≡ y =
                      some-injective _ _
                        (sym row ∙ ap (failure_row first.0.failures) (sym same_uid) ∙ row') in
                    absurd (ground (arith, ap (λ z. z.version) same, next, current, same_version))
              ]
      ]
