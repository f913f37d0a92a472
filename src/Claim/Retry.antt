-- ===== src/Claim/Retry.antt =====
-- A claim that is made again by the worker that holds the run.
use urth.Prelude.{String, ◌≡◌, ◌≢◌, ◌⊎◌, false, some, eq_iff, arith, Time, add_time}
use urth.Types.{Result, Worker, Runner, is_zero}
use urth.Store.{Database, found}
use urth.Claim.Checks.{IsHeld, is_reclaim_iff}
use urth.Claim.{
  SessionClaims, ClaimJobRequest, Service, ok, load_claimant, adjudicate, reissue, authorize_run,
  settle, claim_loaded, claim_run, record_claim_contact, artifact_upload_grace,
}

adjudicate-held :
    (entry : Result) (worker : Worker) (runner : Runner) (request : ClaimJobRequest)
    → IsHeld entry worker request
    → (entry.executor.runner_id ≡ "") ⊎ (entry.executor.runner_id ≡ runner.uid)
    → is_zero entry.execution ≡ false
    → adjudicate entry worker runner request ≡ reissue
unfolding adjudicate
adjudicate-held entry worker runner request held placed described = ground (
  arith,
  is_reclaim_iff entry worker runner request,
  eq_iff entry.executor.runner_id "",
  eq_iff entry.executor.runner_id runner.uid,
)

module _ (db : Database) (service : Service) where
  open db use {State, get_result}
  open service use {parse_session, sign_run}

  -- An admitted worker that claims again the run that it holds for the same dispatch is granted
  -- it again, whatever version and time limit it asks with and however the store moves meanwhile.
  -- The answer has the version, the description and the deadline of the row, which is not
  -- written: the store is as the recording of the contact leaves it.
  pub claim_run-reissues :
      (between : State → State) (s : State) (uid session token : String) (claims : SessionClaims)
      (worker : Worker) (runner : Runner) (entry : Result) (request : ClaimJobRequest) (now : Time)
      → let s' = record_claim_contact db service s claims.worker_id now in
        parse_session session ≡ some claims
        → request.dispatch_id ≢ ""
        → load_claimant db s claims ≡ ok (worker, runner)
        → get_result s' uid ≡ found entry
        → IsHeld entry worker request
        → (entry.executor.runner_id ≡ "") ⊎ (entry.executor.runner_id ≡ runner.uid)
        → is_zero entry.execution ≡ false
        → sign_run entry.uid now (add_time entry.deadline artifact_upload_grace) ≡ some token
        → claim_run db service between s uid session request now ≡ (
          s',
          ok (record {
            uid = entry.uid;
            version = entry.version;
            token = token;
            prob = entry.execution.prob;
            scenario = entry.execution.scenario_name;
            deadline = entry.deadline;
          }),
        )
  unfolding claim_run claim_loaded settle authorize_run
  claim_run-reissues between s uid session token claims worker runner entry request now valid named
        admitted read held placed described signed =
      ground (
        arith,
        adjudicate-held entry worker runner request held placed described,
        eq_iff request.dispatch_id "",
      )
