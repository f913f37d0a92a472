-- ===== src/Failure/Once.antt =====
-- The same failure is on record once, however often it is reported.
use urth.Prelude.{
  String, Bool, false, ◌≡◌, ◌≢◌, sym, ap, ◌∙◌, inl, inr, none, some, Time, arith, Option-cases,
}
use mathlib.Core.Option.{some-injective}
use urth.Store.{Database, failed}
use urth.Claim.Checks.{Fetch-cases}
use urth.Failure.{
  DispatchFailureSpec, DispatchFailure, FailureTable, Ledger, Faults, recorded, validate_failure,
  dispatch_failure_name, new_failure, strand_run_tx, look_again, record_new,
  record_dispatch_failure,
}

module _ (db : Database) (table : FailureTable) where
  open db use {State}
  open table use {Table, named, get_by_name, get_by_name_reads, create, create_named}

  look_again-named :
      (name : String) (w : Ledger State Table) (e : DispatchFailure) (b : Bool)
      → (look_again db table name w).1 ≡ recorded e b
      → named (look_again db table name w).0.failures name ≡ some e
  unfolding look_again
  look_again-named name w e b h = elim (Fetch-cases (get_by_name w.failures name)) [
    | inl f ↦ absurd (ground arith)
    | inr (inl f) ↦ absurd (ground arith)
    | inr (inr (a, f)) ↦ ground (arith, rw f at (get_by_name_reads w.failures name))
  ]

  record_new-named :
      (faults : Faults) (spec : DispatchFailureSpec) (runner_name : String) (now : Time)
      (w : Ledger State Table) (e : DispatchFailure) (b : Bool)
      → (record_new db table faults spec runner_name now w).1 ≡ recorded e b
      → named
          (record_new db table faults spec runner_name now w).0.failures
          (dispatch_failure_name spec.event_uid spec.reason)
        ≡ some e
  unfolding record_new
  record_new-named faults spec runner_name now w e b h =
      let entry = new_failure spec runner_name now in
      let again = look_again-named entry.name w e b in
      elim (Option-cases (create w.failures entry)) [
        | inl c ↦ ground (arith, again)
        | inr (made, c) ↦
            elim (Option-cases
              (strand_run_tx db w.runs spec.result_uid spec.result_version spec.reason now)) [
                | inl s ↦ absurd (ground arith)
                | inr (runs, s) ↦ ground (arith, again, create_named w.failures entry made c)
              ]
      ]

  record_dispatch_failure-named :
      (between : Ledger State Table → Ledger State Table) (faults : Faults)
      (spec : DispatchFailureSpec) (runner_name : String) (now : Time) (w : Ledger State Table)
      (e : DispatchFailure) (b : Bool)
      → (record_dispatch_failure db table between faults spec runner_name now w).1 ≡ recorded e b
      → (validate_failure spec.reason spec.event_uid ≡ none)
        × (named
              (record_dispatch_failure db table between faults spec runner_name now w).0.failures
              (dispatch_failure_name spec.event_uid spec.reason)
            ≡ some e)
  unfolding record_dispatch_failure
  record_dispatch_failure-named between faults spec runner_name now w e b h =
      let name = dispatch_failure_name spec.event_uid spec.reason in
      elim (Option-cases (validate_failure spec.reason spec.event_uid)) [
        | inr (why, v) ↦ absurd (ground arith)
        | inl v ↦ elim (Fetch-cases (get_by_name w.failures name)) [
          | inl f ↦ absurd (ground arith)
          | inr (inl f) ↦
              ground (arith, record_new-named faults spec runner_name now (between w) e b)
          | inr (inr (a, f)) ↦ ground (arith, rw f at (get_by_name_reads w.failures name))
        ]
      ]

  record_dispatch_failure_again :
      (between : Ledger State Table → Ledger State Table) (faults : Faults)
      (spec : DispatchFailureSpec) (runner_name : String) (now : Time) (w : Ledger State Table)
      (e : DispatchFailure)
      → validate_failure spec.reason spec.event_uid ≡ none
      → named w.failures (dispatch_failure_name spec.event_uid spec.reason) ≡ some e
      → get_by_name w.failures (dispatch_failure_name spec.event_uid spec.reason) ≢ failed
      → record_dispatch_failure db table between faults spec runner_name now w
        ≡ (w, recorded e false)
  unfolding record_dispatch_failure
  record_dispatch_failure_again between faults spec runner_name now w e valid known up =
      let name = dispatch_failure_name spec.event_uid spec.reason in
      elim (Fetch-cases (get_by_name w.failures name)) [
        | inl f ↦ absurd (up f)
        | inr (inl f) ↦
            absurd (ground (arith, sym known ∙ (rw f at (get_by_name_reads w.failures name))))
        | inr (inr (a, f)) ↦
            let same =
              some-injective _ _ (sym (rw f at (get_by_name_reads w.failures name)) ∙ known) in
            rw (valid, record_dispatch_failure) (rw f (ap (λ x. (w, recorded x false)) same))
      ]

  -- After a report that is answered with a record, whether it made the record or found it, any
  -- report of the same dispatch failing for the same reason that can look the record up is
  -- answered with that very record as one that was there, and changes nothing, whatever else it
  -- says and whatever the other reporters do.
  pub record_dispatch_failure-once :
      (between between' : Ledger State Table → Ledger State Table) (faults faults' : Faults)
      (spec spec' : DispatchFailureSpec) (runner_name runner_name' : String) (now now' : Time)
      (w : Ledger State Table) (e : DispatchFailure) (b : Bool)
      → (record_dispatch_failure db table between faults spec runner_name now w).1 ≡ recorded e b
      → spec'.event_uid ≡ spec.event_uid
      → spec'.reason ≡ spec.reason
      → get_by_name
          (record_dispatch_failure db table between faults spec runner_name now w).0.failures
          (dispatch_failure_name spec'.event_uid spec'.reason)
        ≢ failed
      → let w' = (record_dispatch_failure db table between faults spec runner_name now w).0 in
        record_dispatch_failure db table between' faults' spec' runner_name' now' w'
        ≡ (w', recorded e false)
  record_dispatch_failure-once between between' faults faults' spec spec' runner_name runner_name'
        now now' w e b h event reason up =
      let w' = (record_dispatch_failure db table between faults spec runner_name now w).0 in
      let (valid, known) =
        record_dispatch_failure-named between faults spec runner_name now w e b h in
      record_dispatch_failure_again between' faults' spec' runner_name' now' w' e
        (rw event (rw reason valid)) (rw event (rw reason known)) up
