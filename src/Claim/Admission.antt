-- ===== src/Claim/Admission.antt =====
-- What a granted claim has established, and what it leaves in the store.
use urth.Prelude.{String, ◌≡◌, ◌≢◌, sym, ◌∙◌, inl, inr, false, some, arith, Time}
use urth.Types.{Result, Worker, Runner, claim}
use urth.Store.{Database}
use urth.Claim.Checks.{
  IsAdmitted, IsClaimable, load_claimant-IsAdmitted, adjudicate-eq-commit, adjudicate-eq-reissue,
  authorize_run-eq-ok, commit_claim-eq-ok, settle-eq-ok, claim_loaded-eq-ok, claim_run-eq-ok,
}
use urth.Claim.{
  SessionClaims, ClaimJobRequest, AuthJobResponse, Service, ok, claim_run, record_claim_contact,
  claimed, settle, load_claimant,
}

module _ (db : Database) (service : Service) where
  open db use {
    State, result_row, get_result, get_result_reads, record_contact_result, update_result,
    result_row_uid, update_result_applied,
  }
  open service use {parse_session, max_run_duration}

  pub record_claim_contact_result :
      (s : State) (worker_uid uid : String) (now : Time)
      → result_row (record_claim_contact db service s worker_uid now) uid ≡ result_row s uid
  unfolding record_claim_contact
  record_claim_contact_result s worker_uid uid now =
      ground (arith, record_contact_result s worker_uid now claim false uid)

  -- How a granted claim got as far as its verdict.
  pub record IsSettled (between : State → State) (s : State) (uid session : String)
      (request : ClaimJobRequest) (now : Time) : Type 0 where
    pub claims : SessionClaims
    pub worker : Worker
    pub runner : Runner
    pub entry : Result
    pub session_valid : parse_session session ≡ some claims
    pub dispatch_named : request.dispatch_id ≢ ""
    pub loaded : load_claimant db s claims ≡ ok (worker, runner)
    pub row : result_row s uid ≡ some entry
    pub own_uid : entry.uid ≡ uid
    pub ran :
        claim_run db service between s uid session request now
        ≡ settle db service between
            (record_claim_contact db service s claims.worker_id now)
            entry
            worker
            runner
            request
            now

  pub claim_run-IsSettled :
      (between : State → State) (s : State) (uid session : String) (request : ClaimJobRequest)
      (now : Time) (resp : AuthJobResponse)
      → (claim_run db service between s uid session request now).1 ≡ ok resp
      → IsSettled between s uid session request now
  claim_run-IsSettled between s uid session request now resp h =
      let (claims, worker, runner, valid, named, loaded, ran) =
        claim_run-eq-ok db service between s uid session request now resp h in
      let s' = record_claim_contact db service s claims.worker_id now in
      let (entry, read, settled) =
        claim_loaded-eq-ok db service between s' uid worker runner request now resp (rw ran at h) in
      let row : result_row s' uid ≡ some entry = rw read at (get_result_reads s' uid) in
      record {
        claims = claims;
        worker = worker;
        runner = runner;
        entry = entry;
        session_valid = valid;
        dispatch_named = named;
        loaded = loaded;
        row = sym (record_claim_contact_result s claims.worker_id uid now) ∙ row;
        own_uid = result_row_uid s' uid entry row;
        ran = ran ∙ settled;
      }

  -- What a grant says about the run that was read, by reissue or by commit.
  module _ (between : State → State) (s : State) (entry : Result) (worker : Worker)
      (runner : Runner) (request : ClaimJobRequest) (now : Time) (resp : AuthJobResponse) where
    pub settle-IsClaimable :
        (settle db service between s entry worker runner request now).1 ≡ ok resp
        → IsClaimable entry worker runner request
          × (resp.uid ≡ entry.uid)
          × (resp.prob ≡ entry.execution.prob)
    unfolding claimed
    settle-IsClaimable h =
        elim (settle-eq-ok db service between s entry worker runner request now resp h) [
          | inl (again, granted) ↦
              let signed = authorize_run-eq-ok db service entry entry.deadline now resp granted in
              ((adjudicate-eq-reissue entry worker runner request again).0, signed.1, signed.3)
          | inr (fresh, granted) ↦
              let (v, _, answered) =
                commit_claim-eq-ok db service (between s) entry worker runner request now resp
                  granted in
              let signed = authorize_run-eq-ok db service _ _ now resp answered in
              ((adjudicate-eq-commit entry worker runner request fresh).0, signed.1, signed.3)
        ]

  -- Everything that a granted claim of the run `uid` at the state `s` rests on.
  pub record IsAuthorized (s : State) (uid session : String) (request : ClaimJobRequest)
      (resp : AuthJobResponse) : Type 0 where
    pub claims : SessionClaims
    pub worker : Worker
    pub runner : Runner
    pub entry : Result
    pub session_valid : parse_session session ≡ some claims
    pub dispatch_named : request.dispatch_id ≢ ""
    pub admitted : IsAdmitted db service s claims worker runner
    pub row : result_row s uid ≡ some entry
    pub claimable : IsClaimable entry worker runner request
    pub same_run : resp.uid ≡ uid
    pub snapshot : resp.prob ≡ entry.execution.prob

  -- A claim is granted only to a worker with a valid session that exists, is not paused, and belongs
  -- to the active runner that the session names; only for a run that exists, is current for the
  -- dispatch, is not placed on another runner, carries a snapshot, and is pending or already held
  -- by this worker for this dispatch. The answer names that run, and its prob is the stored
  -- snapshot's.
  pub claim_run-IsAuthorized :
      (between : State → State) (s : State) (uid session : String) (request : ClaimJobRequest)
      (now : Time) (resp : AuthJobResponse)
      → (claim_run db service between s uid session request now).1 ≡ ok resp
      → IsAuthorized s uid session request resp
  claim_run-IsAuthorized between s uid session request now resp h =
      let t = claim_run-IsSettled between s uid session request now resp h in
      let (claimable, same, prob) =
        settle-IsClaimable between (record_claim_contact db service s t.claims.worker_id now)
          t.entry t.worker t.runner request now resp (rw t.ran at h) in
      record {
        claims = t.claims;
        worker = t.worker;
        runner = t.runner;
        entry = t.entry;
        session_valid = t.session_valid;
        dispatch_named = t.dispatch_named;
        admitted = load_claimant-IsAdmitted db service s t.claims t.worker t.runner t.loaded;
        row = t.row;
        claimable = claimable;
        same_run = same ∙ t.own_uid;
        snapshot = prob;
      }
