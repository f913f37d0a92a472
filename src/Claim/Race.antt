-- ===== src/Claim/Race.antt =====
-- What a granted claim of a pending run leaves in the store, and who wins a race for it.
use urth.Prelude.{
  ℕ, suc, ◌+◌, ◌≤◌, ◌<◌, String, ◌≡◌, ◌≢◌, refl, sym, ◌∙◌, ap, inl, inr, some, eq_iff, arith, Time,
  pos_part, neg_part, is_nonpositive, Duration, if◌then◌else◌,
}
use mathlib.Core.Path.{subst}
use mathlib.Core.Option.{some-injective}
use urth.Types.{Result, Worker, Runner, running, pending}
use urth.Store.{Database, stored}
use urth.Claim.Checks.{
  adjudicate-eq-reissue, authorize_run-eq-ok, commit_claim-eq-ok, settle-eq-ok,
  load_claimant-IsAdmitted, commit_claim_state,
}
use urth.Claim.Admission.{claim_run-IsSettled, record_claim_contact_result}
use urth.Claim.{
  SessionClaims, ClaimJobRequest, AuthJobResponse, Service, ok, claim_run, record_claim_contact,
  claimed, settle, commit_claim, clamp_run_duration, executor_ref, default_max_run_duration,
}

-- The ceiling on a run: the configured maximum, or the default where that is not positive.
abbrev pub run_ceiling : Duration → Duration
run_ceiling maximum = if is_nonpositive maximum then default_max_run_duration else maximum

-- The granted duration is positive and at most the ceiling. A positive request is granted as it
-- stands if it is below the ceiling, and cut to the ceiling otherwise; any other request gets the
-- ceiling.
pub clamp_run_duration_bounds :
    (requested maximum : Duration)
    → let granted = clamp_run_duration requested maximum in
      (neg_part granted ≡ 0)
      × (0 < pos_part granted)
      × (pos_part granted ≤ pos_part (run_ceiling maximum))
      × (0 < pos_part requested
          → pos_part requested < pos_part (run_ceiling maximum)
          → granted ≡ requested)
      × (pos_part (run_ceiling maximum) ≤ pos_part requested → granted ≡ run_ceiling maximum)
      × (pos_part requested ≡ 0 → granted ≡ run_ceiling maximum)
unfolding clamp_run_duration
clamp_run_duration_bounds requested maximum = ground arith

module _ (db : Database) (service : Service) where
  open db use {State, result_row, update_result, update_result_applied, worker_row_uid}
  open service use {parse_session, max_run_duration}

  -- The row of a run that a worker has just been granted.
  pub record IsLeased (row : Result) (claims : SessionClaims) (request : ClaimJobRequest)
      (now : Time) (resp : AuthJobResponse) : Type 0 where
    pub status : row.status ≡ running
    pub worker : row.executor.worker_id ≡ claims.worker_id
    pub dispatch : row.dispatch_id ≡ request.dispatch_id
    pub deadline : row.deadline ≡ resp.deadline
    pub version : row.version ≡ resp.version
    pub lasts : now < row.deadline
    pub bounded : row.deadline ≤ now + pos_part (run_ceiling max_run_duration)

  settle_pending :
      (between : State → State) (s : State) (entry : Result) (worker : Worker) (runner : Runner)
      (request : ClaimJobRequest) (now : Time) (resp : AuthJobResponse)
      → entry.status ≡ pending
      → (settle db service between s entry worker runner request now).1 ≡ ok resp
      → settle db service between s entry worker runner request now
        ≡ commit_claim db service (between s) entry worker runner request now
  unfolding settle
  settle_pending between s entry worker runner request now resp p h =
      elim (settle-eq-ok db service between s entry worker runner request now resp h) [
        | inl (again, _) ↦
            let held = (adjudicate-eq-reissue entry worker runner request again).1 in cc
        | inr (fresh, _) ↦ rw (fresh, settle)
      ]

  stored-IsLeased :
      (r entry : Result) (claims : SessionClaims) (worker : Worker) (runner : Runner)
      (request : ClaimJobRequest) (now : Time) (resp : AuthJobResponse) (v : ℕ)
      → request.dispatch_id ≢ ""
      → worker.uid ≢ ""
      → worker.uid ≡ claims.worker_id
      → resp.version ≡ v
      → resp.deadline ≡ (claimed db service entry worker runner request now).deadline
      → IsLeased
          (stored r (claimed db service entry worker runner request now) v)
          claims
          request
          now
          resp
  unfolding stored claimed executor_ref
  stored-IsLeased r entry claims worker runner request now resp v named known same ver dead =
      ground (
        arith,
        eq_iff request.dispatch_id "",
        eq_iff worker.uid "",
        clamp_run_duration_bounds request.timeout max_run_duration,
      )

  -- A granted claim of a run that was pending when it was read: what the write met, and left.
  pub record IsCommitted (between : State → State) (s : State) (uid session : String)
      (request : ClaimJobRequest) (now : Time) (resp : AuthJobResponse) (entry : Result)
      : Type 0 where
    pub claims : SessionClaims
    pub worker : Worker
    pub runner : Runner
    pub met : Result
    pub session_valid : parse_session session ≡ some claims
    pub dispatch_named : request.dispatch_id ≢ ""
    pub own_worker : worker.uid ≡ claims.worker_id
    pub at_write :
        result_row (between (record_claim_contact db service s claims.worker_id now)) uid ≡ some met
    pub unmoved : met.version ≡ entry.version
    pub written :
        result_row (claim_run db service between s uid session request now).0 uid
        ≡ some (stored met (claimed db service entry worker runner request now) (suc entry.version))
    pub new_version : resp.version ≡ suc entry.version
    pub new_deadline : resp.deadline ≡ (claimed db service entry worker runner request now).deadline

  module _ (between : State → State) (s : State) (uid session : String) (request : ClaimJobRequest)
      (now : Time) (resp : AuthJobResponse) where
    commit_claim_row :
        (s' : State) (entry : Result) (worker : Worker) (runner : Runner)
        → (commit_claim db service s' entry worker runner request now).1 ≡ ok resp
        → (met : Result) × (result_row s' entry.uid ≡ some met)
          × (met.version ≡ entry.version)
          × (result_row (commit_claim db service s' entry worker runner request now).0 entry.uid
              ≡ some (
                  stored met
                    (claimed db service entry worker runner request now)
                    (suc entry.version)))
          × (resp.version ≡ suc entry.version)
          × (resp.deadline ≡ (claimed db service entry worker runner request now).deadline)
    unfolding claimed
    commit_claim_row s' entry worker runner h =
        let e = claimed db service entry worker runner request now in
        let (v, app, answered) =
          commit_claim-eq-ok db service s' entry worker runner request now resp h in
        let (met, row, ver, bump, left) = update_result_applied s' e entry.version v app in
        let signed = authorize_run-eq-ok db service _ _ now resp answered in
        (
          met,
          row,
          ver,
          ap (λ t. result_row t entry.uid)
                (commit_claim_state db service s' entry worker runner request now)
              ∙ left,
          signed.2 ∙ bump,
          signed.4,
        )

    pub claim_run-IsCommitted :
        (entry : Result)
        → result_row s uid ≡ some entry
        → entry.status ≡ pending
        → (claim_run db service between s uid session request now).1 ≡ ok resp
        → IsCommitted between s uid session request now resp entry
    claim_run-IsCommitted entry row p granted =
        let t = claim_run-IsSettled db service between s uid session request now resp granted in
        let same : t.entry ≡ entry = some-injective _ _ (sym t.row ∙ row) in
        let s1 = record_claim_contact db service s t.claims.worker_id now in
        let settled = ap (λ r. r.1) (sym t.ran) ∙ granted in
        let committed =
          settle_pending between s1 t.entry t.worker t.runner request now resp
            (ap (λ r. r.status) same ∙ p) settled in
        let admitted = load_claimant-IsAdmitted db service s t.claims t.worker t.runner t.loaded in
        let (met, at_write, unmoved, left, ver, dead) =
          commit_claim_row (between s1) t.entry t.worker t.runner
            (ap (λ r. r.1) (sym committed) ∙ settled) in
        subst (λ e. IsCommitted between s uid session request now resp e) same
          (record {
            claims = t.claims;
            worker = t.worker;
            runner = t.runner;
            met = met;
            session_valid = t.session_valid;
            dispatch_named = t.dispatch_named;
            own_worker = worker_row_uid s t.claims.worker_id t.worker admitted.worker_exists;
            at_write = ap (result_row (between s1)) (sym t.own_uid) ∙ at_write;
            unmoved = unmoved;
            written =
                ap (λ r. result_row r.0 uid) (t.ran ∙ committed)
                ∙ ap (result_row _) (sym t.own_uid)
                ∙ left;
            new_version = ver;
            new_deadline = dead;
          })

    -- A granted claim of a run that was pending when it was read leaves the run leased: running,
    -- executed by the worker of the session, for the dispatch of the request, until the answered
    -- deadline, which lies after now by at most the ceiling. The answer carries the new version.
    pub claim_run-IsLeased :
        (entry : Result) (claims : SessionClaims)
        → result_row s uid ≡ some entry
        → entry.status ≡ pending
        → parse_session session ≡ some claims
        → claims.worker_id ≢ ""
        → (claim_run db service between s uid session request now).1 ≡ ok resp
        → (row : Result) × (result_row
              (claim_run db service between s uid session request now).0
              uid
            ≡ some row)
          × (row.version ≡ suc entry.version)
          × IsLeased row claims request now resp
    unfolding stored
    claim_run-IsLeased entry claims row p valid known granted =
        let c = claim_run-IsCommitted entry row p granted in
        let same : c.claims ≡ claims = some-injective _ _ (sym c.session_valid ∙ valid) in
        (
          _,
          c.written,
          refl,
          stored-IsLeased c.met entry claims c.worker c.runner request now resp _ c.dispatch_named
              (rw (c.own_worker, same) known) (c.own_worker ∙ ap (λ x. x.worker_id) same)
              c.new_version c.new_deadline,
        )

  -- Two workers reach for one pending run, and the second reads it before the first writes: if the
  -- first claim, made in between, is granted, then the second is not.
  pub claim_run-race :
      (s : State) (uid session₁ session₂ : String) (request₁ request₂ : ClaimJobRequest)
      (now₁ now₂ : Time) (resp₁ resp₂ : AuthJobResponse) (claims : SessionClaims) (entry : Result)
      → result_row s uid ≡ some entry
      → entry.status ≡ pending
      → parse_session session₂ ≡ some claims
      → (claim_run db service
          (λ t. t)
          (record_claim_contact db service s claims.worker_id now₂)
          uid
          session₁
          request₁
          now₁).1
        ≡ ok resp₁
      → (claim_run db service
          (λ t. (claim_run db service (λ u. u) t uid session₁ request₁ now₁).0)
          s
          uid
          session₂
          request₂
          now₂).1
        ≢ ok resp₂
  unfolding stored
  claim_run-race s uid session₁ session₂ request₁ request₂ now₁ now₂ resp₁ resp₂ claims entry row p
        valid first second =
      let s1 = record_claim_contact db service s claims.worker_id now₂ in
      let row1 = record_claim_contact_result db service s claims.worker_id uid now₂ ∙ row in
      let won =
        claim_run-IsCommitted (λ t. t) s1 uid session₁ request₁ now₁ resp₁ entry row1 p first in
      let lost =
        claim_run-IsCommitted (λ t. (claim_run db service (λ u. u) t uid session₁ request₁ now₁).0)
          s uid session₂ request₂ now₂ resp₂ entry row p second in
      let same : lost.claims ≡ claims = some-injective _ _ (sym lost.session_valid ∙ valid) in
      let met = some-injective _ _ (sym (rw same at lost.at_write) ∙ won.written) in
      clash entry (sym lost.unmoved ∙ ap (λ r. r.version) met)
    where
      clash : (e : Result) → e.version ≡ suc e.version → ⊥
      clash e h = omega arith
