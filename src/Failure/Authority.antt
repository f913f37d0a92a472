-- ===== src/Failure/Authority.antt =====
-- Whose word a report of a failure is.
use urth.Prelude.{
  String, ◌≡◌, refl, sym, ap, ◌∙◌, ◌⊎◌, inl, inr, none, some, Option, Time, arith, Option-cases,
  eq_iff,
}
use urth.Types.{Worker, Runner}
use urth.Store.{Database}
use urth.Claim.{SessionClaims, resolve_session, ok}
use urth.Claim.Checks.{Answer-cases}
use urth.Failure.{
  DispatchFailure, FailureTable, Ledger, Faults, validate_failure, ReportRequest, ReportAnswer,
  reported, report_answer, report, reported_spec,
}
use urth.Failure.Stranding.{StrandsOnly, record_dispatch_failure-IsReportOutcome}

module _ (db : Database) (table : FailureTable) where
  open db use {State, worker_row, runner_row, get_worker_reads, get_runner_reads}
  open table use {Table}

  -- Who a session stands for.
  pub record IsIdentified (s : State) (claims : SessionClaims) (worker : Worker) (runner : Runner)
      : Type 0 where
    pub worker_exists : worker_row s claims.worker_id ≡ some worker
    pub same_runner : worker.runner_id ≡ claims.runner_id
    pub runner_exists : runner_row s claims.runner_id ≡ some runner

  resolve_session-IsIdentified :
      (s : State) (claims : SessionClaims) (worker : Worker) (runner : Runner)
      → resolve_session db s claims ≡ ok (worker, runner)
      → IsIdentified s claims worker runner
  unfolding resolve_session
  resolve_session-IsIdentified s claims worker runner h =
      let facts : (worker_row s claims.worker_id ≡ some worker)
          × (worker.runner_id ≡ claims.runner_id)
          × (runner_row s worker.runner_id ≡ some runner) =
        ground (
          arith,
          get_worker_reads s claims.worker_id,
          get_runner_reads s worker.runner_id,
          eq_iff worker.runner_id claims.runner_id,
        ) in
      record {
        worker_exists = facts.0;
        same_runner = facts.1;
        runner_exists = ap (runner_row s) (sym facts.1) ∙ facts.2;
      }

  module _ (parse_session : String → Option SessionClaims) (session : String)
      (request : ReportRequest) (now : Time) (w : Ledger State Table) where
    -- What a report that changes anything rests on, and what it changes.
    abbrev pub IsVouchedFor : Ledger State Table × ReportAnswer → Type 0
    IsVouchedFor out =
        (claims : SessionClaims) × (worker : Worker) × (runner : Runner) × (e : DispatchFailure)
        × (parse_session session ≡ some claims)
        × IsIdentified w.runs claims worker runner
        × (validate_failure request.reason request.event_uid ≡ none)
        × (out.1 ≡ reported e)
        × (e.spec.worker_uid ≡ worker.uid)
        × (e.spec.runner_uid ≡ runner.uid)
        × StrandsOnly db request.result_uid request.result_version request.reason now w.runs
            out.0.runs

    -- A report that no other reporter interferes with changes anything only if its session is good,
    -- the worker and the runner of the session exist and still belong together, and the request is
    -- well formed. The record names that worker and that runner, and no run changes but possibly
    -- the one that the request names, which it strands.
    pub report-IsVouchedFor :
        (faults : Faults)
        → ((report db table parse_session (λ l. l) faults session request now w).0 ≡ w)
          ⊎ IsVouchedFor (report db table parse_session (λ l. l) faults session request now w)
    unfolding report reported_spec
    report-IsVouchedFor faults = elim (Option-cases (parse_session session)) [
      | inl p ↦ inl (rw (p, report) refl)
      | inr (claims, p) ↦ elim (Option-cases (validate_failure request.reason request.event_uid)) [
        | inr (why, v) ↦ inl (rw (p, report) (rw v refl))
        | inl v ↦ elim (Answer-cases (resolve_session db w.runs claims)) [
          | inr (d, i) ↦ inl (rw (p, report) (rw v (rw i refl)))
          | inl ((worker, runner), i) ↦
              let spec = reported_spec db table w.runs worker runner request now in
              rw (p, report)
                (rw v (
                  rw i
                    (elim (record_dispatch_failure-IsReportOutcome db table faults spec runner.name
                      now w) [
                        | inl same ↦ inl same
                        | inr (e, answer, known, kept, outbox, strands) ↦ inr (
                          claims,
                          worker,
                          runner,
                          e,
                          refl,
                          resolve_session-IsIdentified w.runs claims worker runner i,
                          refl,
                          ap report_answer answer,
                          ap (λ x. x.worker_uid) kept,
                          ap (λ x. x.runner_uid) kept,
                          strands,
                        )
                      ])))
        ]
      ]
    ]
