-- ===== src/Worker/EndToEnd.antt =====
-- A worker and the API server together: the message that the worker handles, and the store that
-- the claim behind it leaves.
use urth.Prelude.{
  seconds, String, true, ◌≡◌, ◌≢◌, refl, sym, ap, ◌∙◌, ◌↔◌, ◌⊎◌, inl, inr, some, List, [], ◌∷◌,
  ◌++◌, arith, Time, if◌then◌else◌,
}
use urth.Types.{Result, pending}
use urth.Store.{Database}
use urth.Claim.{
  ClaimDisposition, unavailable, obsolete, forbidden, Answer, ok, err, SessionClaims,
  AuthJobResponse, Service, claim_run, record_claim_contact,
}
use urth.Claim.Race.{IsLeased, claim_run-IsLeased}
use urth.Claim.Refusals.{IsObsolete, claim_run-IsObsolete}
use urth.Claim.{load_claimant}
use urth.Types.{Worker, Runner}
use urth.Worker.InFlight.{is_held}
use urth.Worker.Handle.{
  claim_http_response, classify_claim_failure, claim_retry, claim_stale, claim_terminal, ClaimReply,
  granted, refused, FailureReport, Action, asks_claim, confirms, executes, reports, terminates,
  naks, claim_request, claim_and_apply, apply_disposition, claim_outcome, handle, may_terminate,
  Message, Surroundings,
}
use urth.Worker.Messages.{
  any, is_execution, is_removal, reply_to, IsAskable, executing, stale, reported, handle-executes,
  handle-removes, handle-IsAskable,
}

-- The status of the response decides for the worker exactly what the disposition meant.
pub classify-claim_http_response :
    (d : ClaimDisposition)
    → let outcome = classify_claim_failure (some (claim_http_response d)) in
      ((outcome ≡ claim_stale) ↔ (d ≡ obsolete))
      × ((outcome ≡ claim_terminal) ↔ (d ≡ forbidden))
      × ((outcome ≡ claim_retry) ↔ (d ≡ unavailable))
unfolding classify_claim_failure claim_http_response
classify-claim_http_response unavailable = ground arith
classify-claim_http_response obsolete = ground arith
classify-claim_http_response forbidden = ground arith

-- The answer to a claim, as the worker reads it from the response.
unfoldable pub reply_of : Answer AuthJobResponse → ClaimReply
unfolding claim_http_response
reply_of (ok resp) = granted resp
reply_of (err d) = refused (some (claim_http_response d))

reply_of-granted :
    (a : Answer AuthJobResponse) (resp : AuthJobResponse) → reply_of a ≡ granted resp → a ≡ ok resp
unfolding reply_of
reply_of-granted a resp h = ground arith

reply_of-stale : (a : Answer AuthJobResponse) → reply_of a ≡ refused (some 409) → a ≡ err obsolete
unfolding reply_of claim_http_response
reply_of-stale (ok resp) h = absurd (ground arith)
reply_of-stale (err unavailable) h = absurd (ground arith)
reply_of-stale (err obsolete) h = refl
reply_of-stale (err forbidden) h = absurd (ground arith)

module _ (db : Database) (service : Service) where
  open db use {State, result_row}
  open service use {parse_session}

  module _ (between : State → State) (s : State) (session : String) (now : Time)
      (around : Surroundings) (runs : List String) (msg : Message) where
    -- The API's call for the claim of this message.
    abbrev pub claim_of : State × Answer AuthJobResponse
    claim_of =
        claim_run db service between s msg.decoded.0.result_uid session
          (claim_request around msg.decoded.0) now

    -- A worker executes a message's run, where the run was pending when the API read it, only
    -- with the run leased to the worker of its session for the message's dispatch, and it
    -- executes what the API granted, after an attempt to confirm the acknowledgement.
    pub handle-IsLeased :
        (claims : SessionClaims) (entry : Result)
        → reply_to around msg ≡ reply_of claim_of.1
        → parse_session session ≡ some claims
        → claims.worker_id ≢ ""
        → result_row s msg.decoded.0.result_uid ≡ some entry
        → entry.status ≡ pending
        → any is_execution (handle around runs msg) ≡ true
        → (resp : AuthJobResponse) × (row : Result) × (result_row claim_of.0
              msg.decoded.0.result_uid
            ≡ some row)
          × IsLeased db service row claims (claim_request around msg.decoded.0) now resp
          × (handle around runs msg
              ≡ asks_claim (claim_request around msg.decoded.0)
                ∷ confirms around.ack_verdict
                ∷ executes resp
                ∷ [])
    handle-IsLeased claims entry answered valid known row p executed =
        let (ask, (resp, reply)) = (handle-executes around runs msg).0 executed in
        let granted_it = reply_of-granted claim_of.1 resp (sym answered ∙ reply) in
        let (left, at, _, leased) =
          claim_run-IsLeased db service between s msg.decoded.0.result_uid session
            (claim_request around msg.decoded.0) now resp entry claims row p valid known
            granted_it in
        (resp, left, at, leased, (handle-executes around runs msg).1 resp ask reply)

    -- A message is removed without being executed only if this process executes its run already,
    -- or its run needs the dispatch no longer, or its failure was reported beforehand.
    pub handle-removes-justly :
        reply_to around msg ≡ reply_of claim_of.1
        → any is_removal (handle around runs msg) ≡ true
        → (is_held msg.decoded.0.result_uid runs ≡ true)
          ⊎ (((claims : SessionClaims) × (worker : Worker) × (runner : Runner) × (parse_session
                    session
                  ≡ some claims)
                × (load_claimant db s claims ≡ ok (worker, runner))
                × IsObsolete db service between
                    (record_claim_contact db service s claims.worker_id now)
                    msg.decoded.0.result_uid
                    worker
                    runner
                    (claim_request around msg.decoded.0))
              ⊎ ((before : List Action) × (report : FailureReport) × (handle around runs msg
                    ≡ before ++ (reports report ∷ terminates ∷ []))
                  × (may_terminate (around.report_reply report) ≡ true)))
    handle-removes-justly answered removed = elim (handle-removes around runs msg removed) [
      | executing held ↦ inl held
      | stale gone ↦ inr (
          inl (
            claim_run-IsObsolete db service between s msg.decoded.0.result_uid session
              (claim_request around msg.decoded.0) now
              (reply_of-stale claim_of.1 (sym answered ∙ gone))))
      | reported before report e may ↦ inr (inr (before, report, e, may))
    ]

    -- A claim that could not be decided leaves the message in the queue: it is put back with a
    -- delay, or not touched where the worker is shutting down.
    pub handle-keeps :
        reply_to around msg ≡ reply_of claim_of.1
        → IsAskable around runs msg
        → claim_of.1 ≡ err unavailable
        → handle around runs msg
          ≡ asks_claim (claim_request around msg.decoded.0)
            ∷ (if around.is_shutting_down then [] else naks (seconds 5) ∷ [])
    unfolding claim_and_apply claim_outcome apply_disposition classify_claim_failure reply_of
        claim_http_response
    handle-keeps answered ask undecided =
        handle-IsAskable around runs msg ask ∙ ground (arith, answered ∙ ap reply_of undecided)
