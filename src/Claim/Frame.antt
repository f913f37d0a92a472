-- ===== src/Claim/Frame.antt =====
-- What a claim needs from the store to be decided, and what it leaves alone there.
use urth.Prelude.{
  ℕ, add_time, String, ◌≡◌, ◌≢◌, refl, ◌∙◌, ap, inl, inr, none, ◌=ₛ◌, arith, Bool-cases,
  Option-cases, Time,
}
use urth.Types.{Result, Worker, Runner}
use urth.Store.{Database, failed, failed_write, Write-cases}
use urth.Claim.Checks.{Fetch-cases, Answer-cases, commit_claim_state}
use urth.Claim.Admission.{record_claim_contact_result}
use urth.Claim.{
  SessionClaims, ClaimJobRequest, Service, err, unavailable, resolve_session, load_claimant,
  adjudicate, authorize_run, settle, commit_claim, artifact_upload_grace, claim_loaded, claim_run,
  claimed, record_claim_contact, mark_unschedulable, unschedulable_entry,
}
use urth.Claim.Refusals.{adjudicate-refuse, Verdict-cases}

module _ (db : Database) (service : Service) where
  open db use {
    State, result_row, get_result, get_worker, get_runner, get_result_reads, update_result,
    update_result_other, update_result_rejected, update_result_failed, result_row_uid,
  }
  open service use {parse_session, sign_run}

  module _ (workers : (t : State) (u : String) → get_worker t u ≢ failed)
      (runners : (t : State) (u : String) → get_runner t u ≢ failed)
      (results : (t : State) (u : String) → get_result t u ≢ failed)
      (writes : (t : State) (e : Result) (v : ℕ) → (update_result t e v).1 ≢ failed_write)
      (signs : (u : String) (a b : Time) → sign_run u a b ≢ none) where
    load_claimant-available :
        (s : State) (claims : SessionClaims) → load_claimant db s claims ≢ err unavailable
    unfolding load_claimant resolve_session
    load_claimant-available s claims = elim (Fetch-cases (get_worker s claims.worker_id)) [
      | inl e ↦ absurd (workers _ _ e)
      | inr (inl e) ↦ ground arith
      | inr (inr (worker, e)) ↦ ground (arith, runners s worker.runner_id)
    ]

    authorize_run-available :
        (entry : Result) (deadline now : Time)
        → authorize_run db service entry deadline now ≢ err unavailable
    unfolding authorize_run
    authorize_run-available entry deadline now =
        ground (arith, signs entry.uid now (add_time deadline artifact_upload_grace))

    commit_claim-available :
        (s : State) (entry : Result) (worker : Worker) (runner : Runner) (request : ClaimJobRequest)
        (now : Time)
        → (commit_claim db service s entry worker runner request now).1 ≢ err unavailable
    unfolding commit_claim
    commit_claim-available s entry worker runner request now =
        let e' = claimed db service entry worker runner request now in
        elim (Write-cases (update_result s e' entry.version).1) [
          | inl failure ↦ absurd (writes _ _ _ failure)
          | inr (inl lost) ↦ ground arith
          | inr (inr (v, done)) ↦
              ground (arith, authorize_run-available (record e' { version = v }) e'.deadline now)
        ]

    settle-available :
        (between : State → State) (s : State) (entry : Result) (worker : Worker) (runner : Runner)
        (request : ClaimJobRequest) (now : Time)
        → (settle db service between s entry worker runner request now).1 ≢ err unavailable
    unfolding settle
    settle-available between s entry worker runner request now =
        elim (Verdict-cases (adjudicate entry worker runner request)) [
          | inl (d, e) ↦ ground (arith, adjudicate-refuse entry worker runner request d)
          | inr (inl e) ↦ ground arith
          | inr (inr (inl e)) ↦ ground (arith, authorize_run-available entry entry.deadline now)
          | inr (inr (inr e)) ↦
              ground (arith, commit_claim-available (between s) entry worker runner request now)
        ]

    -- Where every read, write and signature succeeds, no claim is answered `unavailable`.
    pub claim_run-available :
        (between : State → State) (s : State) (uid session : String) (request : ClaimJobRequest)
        (now : Time)
        → (claim_run db service between s uid session request now).1 ≢ err unavailable
    unfolding claim_run claim_loaded
    claim_run-available between s uid session request now =
        elim (Option-cases (parse_session session)) [
          | inl e ↦ ground arith
          | inr (claims, e) ↦ elim (Answer-cases (load_claimant db s claims)) [
            | inr (d, l) ↦ ground (arith, load_claimant-available s claims)
            | inl ((worker, runner), l) ↦
                let t = record_claim_contact db service s claims.worker_id now in
                elim (Fetch-cases (get_result t uid)) [
                  | inl f ↦ absurd (results _ _ f)
                  | inr (inl m) ↦ ground arith
                  | inr (inr (entry, f)) ↦
                      ground (arith, settle-available between t entry worker runner request now)
                ]
          ]
        ]

  mark_unschedulable-other :
      (s : State) (entry : Result) (reason other : String) (now : Time)
      → other ≢ entry.uid
      → result_row (mark_unschedulable db service s entry reason now) other ≡ result_row s other
  unfolding mark_unschedulable unschedulable_entry
  mark_unschedulable-other s entry reason other now h = ground (
    arith,
    update_result_other s (unschedulable_entry db service entry reason now) entry.version other h,
  )

  settle-other :
      (s : State) (entry : Result) (worker : Worker) (runner : Runner) (request : ClaimJobRequest)
      (now : Time) (other : String)
      → other ≢ entry.uid
      → result_row (settle db service (λ t. t) s entry worker runner request now).0 other
        ≡ result_row s other
  unfolding settle claimed
  settle-other s entry worker runner request now other h =
      elim (Verdict-cases (adjudicate entry worker runner request)) [
        | inl (d, e) ↦ rw (e, settle) refl
        | inr (inl e) ↦ rw (e, settle) (mark_unschedulable-other s entry _ other now h)
        | inr (inr (inl e)) ↦ rw (e, settle) refl
        | inr (inr (inr e)) ↦
            rw (e, settle)
              (ap (λ t. result_row t other)
                  (commit_claim_state db service s entry worker runner request now)
                ∙ update_result_other s (claimed db service entry worker runner request now)
                    entry.version other h)
      ]

  -- A claim that no other process interferes with writes no run but its own.
  pub claim_run-frame :
      (s : State) (uid other session : String) (request : ClaimJobRequest) (now : Time)
      → other ≢ uid
      → result_row (claim_run db service (λ t. t) s uid session request now).0 other
        ≡ result_row s other
  unfolding claim_run claim_loaded
  claim_run-frame s uid other session request now different =
      elim (Option-cases (parse_session session)) [
        | inl e ↦ ground arith
        | inr (claims, e) ↦ elim (Bool-cases (request.dispatch_id =ₛ "")) [
          | inl unnamed ↦ ground arith
          | inr named ↦ elim (Answer-cases (load_claimant db s claims)) [
            | inr (d, l) ↦ ground arith
            | inl ((worker, runner), l) ↦
                let t = record_claim_contact db service s claims.worker_id now in
                let contact = record_claim_contact_result db service s claims.worker_id other now in
                elim (Fetch-cases (get_result t uid)) [
                  | inl f ↦ ground (arith, contact)
                  | inr (inl m) ↦ ground (arith, contact)
                  | inr (inr (entry, f)) ↦
                      let own = result_row_uid t uid entry (rw f at (get_result_reads t uid)) in
                      ground (
                        arith,
                        contact,
                        settle-other t entry worker runner request now other
                            (λ same. different (same ∙ own)),
                      )
                ]
          ]
        ]
      ]
