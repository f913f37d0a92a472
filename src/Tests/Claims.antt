-- ===== src/Tests/Claims.antt =====
-- Claims of the run of the small fleet.
use urth.Prelude.{String, false, ◌≡◌, ◌≢◌, refl, some, inr, eq_iff, arith}
use urth.Types.{Result, Worker, Runner, is_zero}
use urth.Store.Memory.{memory, Tables, result_at, worker_at, read, update, write}
use urth.Claim.{
  ok, err, unavailable, claim_run, load_claimant, resolve_session, claim_loaded,
  record_claim_contact, settle, adjudicate, is_reclaim, commit_claim, claimed, authorize_run,
  clamp_run_duration, AuthJobResponse, Answer, SessionClaims,
}
use urth.Claim.Admission.{claim_run-IsAuthorized, IsAuthorized}
use urth.Claim.Race.{claim_run-IsLeased, IsLeased, claim_run-race}
use urth.Claim.Retry.{claim_run-reissues}
use urth.Claim.Refusals.{claim_run-IsObsolete, IsObsolete}
use urth.Claim.Frame.{claim_run-available}
use urth.Tests.Fleet.{service, tables, waiting, held, request, claims_of, worker, runner, grant}

-- A claim by a session on a store in memory, with nothing in between.
abbrev claim_by : String → Tables → Tables × Answer AuthJobResponse
claim_by session t = claim_run (memory false) service (λ u. u) t "u-1" session request 1000

granted_run : (claim_by "session-1" (tables waiting)).1 ≡ ok grant
unfolding claim_run load_claimant resolve_session claim_loaded record_claim_contact settle
    adjudicate is_reclaim is_zero commit_claim claimed authorize_run clamp_run_duration result_at
    worker_at read update write
granted_run = refl

claim_run-IsAuthorized_example :
    IsAuthorized (memory false) service (tables waiting) "u-1" "session-1" request grant
claim_run-IsAuthorized_example =
    claim_run-IsAuthorized (memory false) service (λ u. u) (tables waiting) "u-1" "session-1"
      request 1000 grant granted_run

claim_run-IsLeased_example :
    (row : Result) × (result_at (claim_by "session-1" (tables waiting)).0 "u-1" ≡ some row)
    × (row.version ≡ 8)
    × IsLeased (memory false) service row (claims_of "w-1") request 1000 grant
unfolding claim_run load_claimant resolve_session claim_loaded record_claim_contact settle
    adjudicate is_reclaim is_zero commit_claim claimed authorize_run clamp_run_duration result_at
    worker_at read update write
claim_run-IsLeased_example =
    claim_run-IsLeased (memory false) service (λ u. u) (tables waiting) "u-1" "session-1" request
      1000 grant waiting (claims_of "w-1") refl refl refl (ground (arith, eq_iff "w-1" ""))
      granted_run

claim_run-race_example :
    (claim_run
      (memory false)
      service
      (λ t. (claim_by "session-1" t).0)
      (tables waiting)
      "u-1"
      "session-2"
      request
      1000).1
    ≢ ok grant
unfolding claim_run load_claimant resolve_session claim_loaded record_claim_contact settle
    adjudicate is_reclaim is_zero commit_claim claimed authorize_run clamp_run_duration result_at
    worker_at read update write
claim_run-race_example =
    claim_run-race (memory false) service (tables waiting) "u-1" "session-1" "session-2" request
      request 1000 1000 grant grant (claims_of "w-2") waiting refl refl refl granted_run

claim_run-reissues_example :
    claim_by "session-1" (tables held)
    ≡ (record_claim_contact (memory false) service (tables held) "w-1" 1000, ok grant)
unfolding claim_run load_claimant resolve_session claim_loaded record_claim_contact settle
    adjudicate is_reclaim is_zero commit_claim claimed authorize_run clamp_run_duration result_at
    worker_at read update write
claim_run-reissues_example =
    claim_run-reissues (memory false) service (λ u. u) (tables held) "u-1" "session-1" "token"
      (claims_of "w-1") (worker "w-1") runner held request 1000 refl
      (ground (arith, eq_iff "d-1" "")) refl refl (refl, refl, refl) (inr refl) refl refl

claim_run-IsObsolete_example :
    (claims : SessionClaims) × (w : Worker) × (r : Runner) × (service.parse_session "session-2"
      ≡ some claims)
    × (load_claimant (memory false) (tables held) claims ≡ ok (w, r))
    × IsObsolete
        (memory false)
        service
        (λ u. u)
        (record_claim_contact (memory false) service (tables held) claims.worker_id 1000)
        "u-1"
        w
        r
        request
unfolding claim_run load_claimant resolve_session claim_loaded record_claim_contact settle
    adjudicate is_reclaim is_zero commit_claim claimed authorize_run clamp_run_duration result_at
    worker_at read update write
claim_run-IsObsolete_example =
    claim_run-IsObsolete (memory false) service (λ u. u) (tables held) "u-1" "session-2" request
      1000 refl

claim_run-available_example : (claim_by "session-1" (tables waiting)).1 ≢ err unavailable
unfolding read update write
claim_run-available_example =
    claim_run-available (memory false) service (λ t u. ground arith) (λ t u. ground arith)
      (λ t u. ground arith) (λ t e v. ground arith) (λ u a b. ground arith) (λ u. u)
      (tables waiting) "u-1" "session-1" request 1000
