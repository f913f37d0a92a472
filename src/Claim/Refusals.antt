-- ===== src/Claim/Refusals.antt =====
-- What a refusal says of the run, and what a claim leaves alone.
use urth.Prelude.{
  String, ◌≡◌, ◌≢◌, refl, ◌∙◌, ap, ◌⊎◌, inl, inr, true, none, some, eq_iff, arith, Option-cases,
  Time,
}
use urth.Types.{Result, Worker, Runner, is_zero, pending}
use urth.Store.{Database, rejected}
use urth.Claim.Checks.{IsHeld, is_reclaim_iff, Fetch-cases, Answer-cases}
use urth.Claim.{
  SessionClaims, ClaimJobRequest, Service, ok, err, ClaimDisposition, obsolete, resolve_session,
  load_claimant, adjudicate, refuse, unschedulable, reissue, commit, Verdict, authorize_run, settle,
  commit_claim, claim_loaded, claim_run, claimed, record_claim_contact,
}

-- Why the run that was read needs this dispatch no longer: a newer version of it has superseded
-- the dispatch, it is placed on another runner, it has no description to execute, or it is over or
-- executed by another claim.
abbrev pub IsSuperfluous : Result → Worker → Runner → ClaimJobRequest → Type 0
IsSuperfluous entry worker runner request =
    ((request.result_version ≢ 0)
      × (request.result_version ≢ entry.version)
      × ¬ IsHeld entry worker request)
    ⊎ (((entry.executor.runner_id ≢ "") × (entry.executor.runner_id ≢ runner.uid))
        ⊎ ((is_zero entry.execution ≡ true)
            ⊎ ((entry.status ≢ pending) × ¬ IsHeld entry worker request)))

pub adjudicate-refuse :
    (entry : Result) (worker : Worker) (runner : Runner) (request : ClaimJobRequest)
    (d : ClaimDisposition)
    → adjudicate entry worker runner request ≡ refuse d
    → (d ≡ obsolete) × IsSuperfluous entry worker runner request
unfolding adjudicate
adjudicate-refuse entry worker runner request d h = ground (
  arith,
  is_reclaim_iff entry worker runner request,
  eq_iff entry.executor.runner_id "",
  eq_iff entry.executor.runner_id runner.uid,
)

-- A run that is neither pending nor held for this claim is refused or not described.
pub adjudicate-pending :
    (entry : Result) (worker : Worker) (runner : Runner) (request : ClaimJobRequest)
    → adjudicate entry worker runner request ≡ commit
    → entry.status ≡ pending
unfolding adjudicate
adjudicate-pending entry worker runner request h = ground arith

adjudicate-unschedulable :
    (entry : Result) (worker : Worker) (runner : Runner) (request : ClaimJobRequest)
    → adjudicate entry worker runner request ≡ unschedulable
    → is_zero entry.execution ≡ true
unfolding adjudicate
adjudicate-unschedulable entry worker runner request h = ground arith

pub Verdict-cases :
    (v : Verdict)
    → ((d : ClaimDisposition) × (v ≡ refuse d))
      ⊎ ((v ≡ unschedulable) ⊎ ((v ≡ reissue) ⊎ (v ≡ commit)))
Verdict-cases (refuse d) = inl (d, refl)
Verdict-cases unschedulable = inr (inl refl)
Verdict-cases reissue = inr (inr (inl refl))
Verdict-cases commit = inr (inr (inr refl))

module _ (db : Database) (service : Service) where
  open db use {
    State, result_row, get_result, get_worker, get_runner, get_result_reads, update_result,
    update_result_rejected_version, update_result_rejected, update_result_failed,
    update_result_other, result_row_uid,
  }
  open service use {parse_session, sign_run}

  -- The run needs this dispatch no longer: it is gone; what was read of it says so; or its row has
  -- moved on, or gone, by the time of the write.
  pub data IsObsolete (between : State → State) (s : State) (uid : String) (worker : Worker)
      (runner : Runner) (request : ClaimJobRequest) : Type 0 where
    gone : result_row s uid ≡ none → IsObsolete between s uid worker runner request
    superfluous :
        (entry : Result)
        → result_row s uid ≡ some entry
        → IsSuperfluous entry worker runner request
        → IsObsolete between s uid worker runner request
    overtaken :
        (entry : Result)
        → result_row s uid ≡ some entry
        → ((met : Result) → result_row (between s) uid ≡ some met → met.version ≢ entry.version)
        → IsObsolete between s uid worker runner request

  authorize_run-obsolete :
      (entry : Result) (deadline now : Time)
      → authorize_run db service entry deadline now ≡ err obsolete
      → is_zero entry.execution ≡ true
  unfolding authorize_run
  authorize_run-obsolete entry deadline now h = ground arith

  commit_claim-obsolete :
      (s : State) (entry : Result) (worker : Worker) (runner : Runner) (request : ClaimJobRequest)
      (now : Time)
      → (commit_claim db service s entry worker runner request now).1 ≡ err obsolete
      → (is_zero entry.execution ≡ true)
        ⊎ ((update_result s (claimed db service entry worker runner request now) entry.version).1
            ≡ rejected)
  unfolding commit_claim authorize_run claimed
  commit_claim-obsolete s entry worker runner request now h = ground arith

  settle-obsolete :
      (between : State → State) (s : State) (uid : String) (entry : Result) (worker : Worker)
      (runner : Runner) (request : ClaimJobRequest) (now : Time)
      → result_row s uid ≡ some entry
      → (settle db service between s entry worker runner request now).1 ≡ err obsolete
      → IsObsolete between s uid worker runner request
  unfolding settle claimed
  settle-obsolete between s uid entry worker runner request now row k =
      elim (Verdict-cases (adjudicate entry worker runner request)) [
        | inl (d, e) ↦ superfluous entry row (adjudicate-refuse entry worker runner request d e).1
        | inr (inl e) ↦
            superfluous entry row
              (inr (inr (inl (adjudicate-unschedulable entry worker runner request e))))
        | inr (inr (inl e)) ↦ superfluous entry row (
            inr (inr (inl (authorize_run-obsolete entry entry.deadline now (rw (e, settle) at k)))))
        | inr (inr (inr e)) ↦
            elim (commit_claim-obsolete (between s) entry worker runner request now
              (rw (e, settle) at k)) [
                | inl zero_snapshot ↦ superfluous entry row (inr (inr (inl zero_snapshot)))
                | inr lost ↦ overtaken entry row (λ met m.
                    update_result_rejected_version (between s)
                      (claimed db service entry worker runner request now) met entry.version lost
                      (ap (result_row (between s)) (result_row_uid s uid entry row) ∙ m))
              ]
      ]

  claim_loaded-obsolete :
      (between : State → State) (s : State) (uid : String) (worker : Worker) (runner : Runner)
      (request : ClaimJobRequest) (now : Time)
      → (claim_loaded db service between s uid worker runner request now).1 ≡ err obsolete
      → IsObsolete between s uid worker runner request
  unfolding claim_loaded
  claim_loaded-obsolete between s uid worker runner request now h =
      elim (Fetch-cases (get_result s uid)) [
        | inl e ↦ absurd (ground arith)
        | inr (inl e) ↦ gone (rw e at (get_result_reads s uid))
        | inr (inr (entry, e)) ↦
            settle-obsolete between s uid entry worker runner request now
              (rw e at (get_result_reads s uid)) (rw (e, claim_loaded) at h)
      ]

  load_claimant-not-obsolete :
      (s : State) (claims : SessionClaims) → load_claimant db s claims ≢ err obsolete
  unfolding load_claimant resolve_session
  load_claimant-not-obsolete s claims = ground arith

  -- A claim is answered `obsolete` only by an admitted caller's session, and only when the run
  -- needs the dispatch no longer.
  pub claim_run-IsObsolete :
      (between : State → State) (s : State) (uid session : String) (request : ClaimJobRequest)
      (now : Time)
      → (claim_run db service between s uid session request now).1 ≡ err obsolete
      → (claims : SessionClaims) × (worker : Worker) × (runner : Runner) × (parse_session session
          ≡ some claims)
        × (load_claimant db s claims ≡ ok (worker, runner))
        × IsObsolete between
            (record_claim_contact db service s claims.worker_id now)
            uid
            worker
            runner
            request
  unfolding claim_run
  claim_run-IsObsolete between s uid session request now h =
      elim (Option-cases (parse_session session)) [
        | inl e ↦ absurd (ground arith)
        | inr (claims, e) ↦ elim (Answer-cases (load_claimant db s claims)) [
          | inr (d, l) ↦ absurd (ground (arith, load_claimant-not-obsolete s claims))
          | inl ((worker, runner), l) ↦ (
            claims,
            worker,
            runner,
            e,
            l,
            claim_loaded-obsolete between (record_claim_contact db service s claims.worker_id now)
                uid worker runner request now (ground (arith, e, l, h)),
          )
        ]
      ]
