-- ===== src/Claim/Checks.antt =====
-- What the steps of a claim have established when they let it through.
use urth.Prelude.{
  String, ℕ, ◌↔◌, ◌≡◌, ◌≢◌, refl, ◌⊎◌, inl, inr, true, false, some, ◌=ₛ◌, eq_iff, arith, Bool-cases,
  Option-cases, Time,
}
use urth.Types.{Result, Worker, Runner, is_zero, running, pending}
use urth.Store.{Database, Fetch, failed, missing, found, applied}
use urth.Claim.Disposition.{ClaimDisposition, Answer, ok, err}
use urth.Claim.Session.{SessionClaims, resolve_session, load_claimant}
use urth.Claim.Run.{
  ClaimJobRequest, AuthJobResponse, Service, reissue, commit, adjudicate, authorize_run,
  commit_claim, settle, claim_loaded, claim_run, record_claim_contact, is_reclaim, claimed,
}

pub Answer-cases {ℓ} :
    {A : Type ℓ} (m : Answer A) → ((a : A) × (m ≡ ok a)) ⊎ ((d : ClaimDisposition) × (m ≡ err d))
Answer-cases (ok a) = inl (a, refl)
Answer-cases (err d) = inr (d, refl)

pub Fetch-cases {ℓ} :
    {A : Type ℓ} (f : Fetch A) → (f ≡ failed) ⊎ ((f ≡ missing) ⊎ ((a : A) × (f ≡ found a)))
Fetch-cases failed = inl refl
Fetch-cases missing = inr (inl refl)
Fetch-cases (found a) = inr (inr (a, refl))

module _ (db : Database) (service : Service) where
  open db use {State, result_row, worker_row, runner_row, get_worker_reads, get_runner_reads}
  open service use {parse_session}

  -- The worker behind the session exists, is not paused, and still belongs to the runner that the
  -- session names; that runner exists and is active.
  pub record IsAdmitted (s : State) (claims : SessionClaims) (worker : Worker) (runner : Runner)
      : Type 0 where
    pub worker_exists : worker_row s claims.worker_id ≡ some worker
    pub same_runner : worker.runner_id ≡ claims.runner_id
    pub runner_exists : runner_row s worker.runner_id ≡ some runner
    pub not_paused : worker.status.is_paused ≡ false
    pub active : runner.is_active ≡ true

  pub load_claimant-IsAdmitted :
      (s : State) (claims : SessionClaims) (worker : Worker) (runner : Runner)
      → load_claimant db s claims ≡ ok (worker, runner)
      → IsAdmitted s claims worker runner
  unfolding load_claimant resolve_session
  load_claimant-IsAdmitted s claims worker runner h = ground (
    arith,
    get_worker_reads s claims.worker_id,
    get_runner_reads s worker.runner_id,
    eq_iff worker.runner_id claims.runner_id,
  )

-- The run is held by this worker, for this very dispatch.
abbrev pub IsHeld : Result → Worker → ClaimJobRequest → Type 0
IsHeld entry worker request =
    (entry.status ≡ running)
    × (entry.executor.worker_id ≡ worker.uid)
    × (entry.dispatch_id ≡ request.dispatch_id)

-- What the run itself must satisfy for a claim to be granted.
pub record IsClaimable (entry : Result) (worker : Worker) (runner : Runner)
    (request : ClaimJobRequest) : Type 0 where
  pub current :
      (request.result_version ≡ 0)
      ⊎ ((request.result_version ≡ entry.version) ⊎ IsHeld entry worker request)
  pub placed : (entry.executor.runner_id ≡ "") ⊎ (entry.executor.runner_id ≡ runner.uid)
  pub described : is_zero entry.execution ≡ false
  pub free : (entry.status ≡ pending) ⊎ IsHeld entry worker request

module _ (entry : Result) (worker : Worker) (runner : Runner) (request : ClaimJobRequest) where
  pub is_reclaim_iff :
      (is_reclaim entry worker.uid request.dispatch_id ≡ true) ↔ IsHeld entry worker request
  unfolding is_reclaim
  is_reclaim_iff = ground (
    arith,
    eq_iff entry.executor.worker_id worker.uid,
    eq_iff entry.dispatch_id request.dispatch_id,
  )

  pub adjudicate-eq-commit :
      adjudicate entry worker runner request ≡ commit
      → IsClaimable entry worker runner request × (entry.status ≡ pending)
  unfolding adjudicate
  adjudicate-eq-commit h = ground (
    arith,
    is_reclaim_iff,
    eq_iff entry.executor.runner_id "",
    eq_iff entry.executor.runner_id runner.uid,
  )

  pub adjudicate-eq-reissue :
      adjudicate entry worker runner request ≡ reissue
      → IsClaimable entry worker runner request × IsHeld entry worker request
  unfolding adjudicate
  adjudicate-eq-reissue h = ground (
    arith,
    is_reclaim_iff,
    eq_iff entry.executor.runner_id "",
    eq_iff entry.executor.runner_id runner.uid,
  )

module _ (db : Database) (service : Service) where
  open db use {State, get_result, update_result}
  open service use {parse_session, sign_run}

  pub authorize_run-eq-ok :
      (entry : Result) (deadline now : Time) (resp : AuthJobResponse)
      → authorize_run db service entry deadline now ≡ ok resp
      → (is_zero entry.execution ≡ false)
        × (resp.uid ≡ entry.uid)
        × (resp.version ≡ entry.version)
        × (resp.prob ≡ entry.execution.prob)
        × (resp.deadline ≡ deadline)
  unfolding authorize_run
  authorize_run-eq-ok entry deadline now resp h = ground arith

  pub commit_claim-eq-ok :
      (s : State) (entry : Result) (worker : Worker) (runner : Runner) (request : ClaimJobRequest)
      (now : Time) (resp : AuthJobResponse)
      → (commit_claim db service s entry worker runner request now).1 ≡ ok resp
      → let entry' = claimed db service entry worker runner request now in
        (v : ℕ) × ((update_result s entry' entry.version).1 ≡ applied v)
        × (authorize_run db service (record entry' { version = v }) entry'.deadline now ≡ ok resp)
  unfolding commit_claim
  commit_claim-eq-ok s entry worker runner request now resp h = ground arith

  pub commit_claim_state :
      (s : State) (entry : Result) (worker : Worker) (runner : Runner) (request : ClaimJobRequest)
      (now : Time)
      → (commit_claim db service s entry worker runner request now).0
        ≡ (update_result s (claimed db service entry worker runner request now) entry.version).0
  unfolding commit_claim
  commit_claim_state s entry worker runner request now = ground arith

  pub settle-eq-ok :
      (between : State → State) (s : State) (entry : Result) (worker : Worker) (runner : Runner)
      (request : ClaimJobRequest) (now : Time) (resp : AuthJobResponse)
      → (settle db service between s entry worker runner request now).1 ≡ ok resp
      → ((adjudicate entry worker runner request ≡ reissue)
          × (authorize_run db service entry entry.deadline now ≡ ok resp))
        ⊎ ((adjudicate entry worker runner request ≡ commit)
            × ((commit_claim db service (between s) entry worker runner request now).1 ≡ ok resp))
  unfolding settle
  settle-eq-ok between s entry worker runner request now resp h = ground arith

  pub claim_loaded-eq-ok :
      (between : State → State) (s : State) (uid : String) (worker : Worker) (runner : Runner)
      (request : ClaimJobRequest) (now : Time) (resp : AuthJobResponse)
      → (claim_loaded db service between s uid worker runner request now).1 ≡ ok resp
      → (entry : Result) × (get_result s uid ≡ found entry)
        × (claim_loaded db service between s uid worker runner request now
            ≡ settle db service between s entry worker runner request now)
  unfolding claim_loaded
  claim_loaded-eq-ok between s uid worker runner request now resp h =
      elim (Fetch-cases (get_result s uid)) [
        | inl e ↦ absurd (ground arith)
        | inr (inl e) ↦ absurd (ground arith)
        | inr (inr (entry, e)) ↦ (entry, e, rw (e, claim_loaded))
      ]

  pub claim_run-eq-ok :
      (between : State → State) (s : State) (uid session : String) (request : ClaimJobRequest)
      (now : Time) (resp : AuthJobResponse)
      → (claim_run db service between s uid session request now).1 ≡ ok resp
      → (claims : SessionClaims) × (worker : Worker) × (runner : Runner) × (parse_session session
          ≡ some claims)
        × (request.dispatch_id ≢ "")
        × (load_claimant db s claims ≡ ok (worker, runner))
        × (claim_run db service between s uid session request now
            ≡ claim_loaded db service between
                (record_claim_contact db service s claims.worker_id now)
                uid
                worker
                runner
                request
                now)
  unfolding claim_run
  claim_run-eq-ok between s uid session request now resp h =
      elim (Option-cases (parse_session session)) [
        | inl e ↦ absurd (ground arith)
        | inr (claims, e) ↦ elim (Bool-cases (request.dispatch_id =ₛ "")) [
          | inl empty ↦ absurd (ground arith)
          | inr named ↦ elim (Answer-cases (load_claimant db s claims)) [
            | inl ((worker, runner), l) ↦ (
              claims,
              worker,
              runner,
              e,
              ground (arith, eq_iff request.dispatch_id ""),
              l,
              rw (e, claim_run) (rw named (rw l)),
            )
            | inr (d, l) ↦ absurd (ground arith)
          ]
        ]
      ]
