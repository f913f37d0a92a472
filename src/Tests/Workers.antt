-- ===== src/Tests/Workers.antt =====
-- Messages that a worker of the small fleet handles.
use urth.Prelude.{
  is_nonpositive, seconds, ℕ, suc, true, false, ◌≡◌, ◌≢◌, ◌≤◌, ◌<◌, ◌+◌, minutes, refl, none, some,
  ◌⊎◌, zero, List, [], ◌∷◌, ◌++◌, eq_iff, arith, pos, length, seconds,
}
use urth.Types.{Result, Worker, Runner}
use urth.Store.Memory.{memory, result_at, worker_at, read, update, write}
use urth.Claim.{
  ok, claim_run, load_claimant, resolve_session, claim_loaded, record_claim_contact, settle,
  adjudicate, is_reclaim, commit_claim, claimed, authorize_run, clamp_run_duration, SessionClaims,
  AuthJobResponse,
}
use urth.Types.{is_zero}
use urth.Claim.Race.{IsLeased}
use urth.Claim.Refusals.{IsObsolete}
use urth.Worker.Lease.{run_timeout, run_timeout_bounds, upload_reserve}
use urth.Worker.{
  DispatchEnvelope, Message, Surroundings, ConsumeState, idle, reserve, at_start, then_, reserves,
  spawns, reaches, spawn, reach, acquire, alive, confirmed, transient, answered, confirm_ack,
  out_of_fuel, granted, refused, recorded, asks_claim, confirms, executes, naks, reports,
  terminates, handle, unmarshal_envelope, validate_envelope, claim_and_apply, apply_disposition,
  claim_outcome, classify_claim_failure, claim_http_response, Action, FailureReport, may_terminate,
  ClaimReply, AckReply, is_held,
}
use urth.Worker.Messages.{IsAskable, handle-executes}
use urth.Worker.Slots.{owners, Reachable-exclusive}
use urth.Worker.Handshake.{confirm_ack_terminates}
use urth.Worker.EndToEnd.{reply_of, claim_of, handle-IsLeased, handle-removes-justly, handle-keeps}
use urth.Tests.Fleet.{service, tables, waiting, held, request, claims_of, grant}

abbrev envelope : DispatchEnvelope
envelope = record {
  schema_version = 1;
  result_uid = "u-1";
  result_version = 7;
  scenario_name = "home-page";
  runner_uid = "r-1";
  dispatch_id = "d-1";
  trace = [];
}

abbrev message : Message
message = record { decoded = (envelope, true); metadata = none }

-- A worker whose claims get the given answer.
abbrev around : ClaimReply → Surroundings
around reply = record {
  runner_uid = "r-1";
  timeout = pos 60;
  claim_reply = λ r. reply;
  is_shutting_down = false;
  report_reply = λ r. recorded;
  ack_verdict = confirmed;
}

askable : (reply : ClaimReply) → IsAskable (around reply) [] message
unfolding unmarshal_envelope validate_envelope
askable reply = record { readable = refl; routed = refl; free = refl }

handle-executes_example :
    handle (around (granted grant)) [] message
    ≡ asks_claim request ∷ confirms confirmed ∷ executes grant ∷ []
handle-executes_example =
    (handle-executes (around (granted grant)) [] message).1 grant (askable (granted grant)) refl

handle-IsLeased_example :
    (resp : AuthJobResponse) × (row : Result) × (result_at
        (claim_of
          (memory false)
          service
          (λ u. u)
          (tables waiting)
          "session-1"
          1000
          (around (granted grant))
          []
          message).0
        "u-1"
      ≡ some row)
    × IsLeased (memory false) service row (claims_of "w-1") request 1000 resp
    × (handle (around (granted grant)) [] message
        ≡ asks_claim request ∷ confirms confirmed ∷ executes resp ∷ [])
unfolding claim_run load_claimant resolve_session claim_loaded record_claim_contact settle
    adjudicate is_reclaim is_zero commit_claim claimed authorize_run clamp_run_duration result_at
    worker_at read update write reply_of claim_http_response handle unmarshal_envelope
    validate_envelope acquire claim_and_apply apply_disposition claim_outcome classify_claim_failure
handle-IsLeased_example =
    handle-IsLeased (memory false) service (λ u. u) (tables waiting) "session-1" 1000
      (around (granted grant)) [] message (claims_of "w-1") waiting refl refl
      (ground (arith, eq_iff "w-1" "")) refl refl refl

-- The second worker's message comes after the first worker's claim, and is acknowledged.
handle-removes-justly_example :
    (is_held "u-1" [] ≡ true)
    ⊎ (((claims : SessionClaims) × (w : Worker) × (r : Runner) × (service.parse_session "session-2"
            ≡ some claims)
          × (load_claimant (memory false) (tables held) claims ≡ ok (w, r))
          × IsObsolete
              (memory false)
              service
              (λ u. u)
              (record_claim_contact (memory false) service (tables held) claims.worker_id 1000)
              "u-1"
              w
              r
              request)
        ⊎ ((before : List Action) × (report : FailureReport) × (handle
                (around (refused (some 409)))
                []
                message
              ≡ before ++ (reports report ∷ terminates ∷ []))
            × (may_terminate recorded ≡ true)))
unfolding claim_run load_claimant resolve_session claim_loaded record_claim_contact settle
    adjudicate is_reclaim is_zero commit_claim claimed authorize_run clamp_run_duration result_at
    worker_at read update write reply_of claim_http_response handle unmarshal_envelope
    validate_envelope acquire claim_and_apply apply_disposition claim_outcome classify_claim_failure
handle-removes-justly_example =
    handle-removes-justly (memory false) service (λ u. u) (tables held) "session-2" 1000
      (around (refused (some 409))) [] message refl refl

-- The database is down, and the message is put back.
handle-keeps_example :
    handle (around (refused (some 503))) [] message ≡ asks_claim request ∷ naks (seconds 5) ∷ []
unfolding claim_run load_claimant resolve_session claim_loaded record_claim_contact settle
    adjudicate is_reclaim is_zero commit_claim claimed authorize_run clamp_run_duration result_at
    worker_at read update write reply_of claim_http_response handle unmarshal_envelope
    validate_envelope acquire claim_and_apply apply_disposition claim_outcome classify_claim_failure
handle-keeps_example =
    handle-keeps (memory true) service (λ u. u) (tables waiting) "session-1" 1000
      (around (refused (some 503))) [] message refl (askable (refused (some 503))) refl

-- One handler owns the run, and another one has just been handed a message.
abbrev hired : ConsumeState
hired = spawn (reserve idle)

abbrev busy : ConsumeState
busy = spawn (reserve (reach "u-1" [] [] hired))

Reachable-exclusive_example :
    (length busy.handlers ≤ 2)
    × (owners "u-1" busy.handlers ≤ 1)
    × (owners "u-1" busy.handlers ≡ 1 → (acquire "u-1" busy.runs).1 ≡ false)
    × (owners "u-1" busy.handlers ≡ 0 → (acquire "u-1" busy.runs).1 ≡ true)
unfolding reach
Reachable-exclusive_example = Reachable-exclusive 2 busy "u-1" (
    then_ _ busy
      (then_ _ (reserve (reach "u-1" [] [] hired))
        (then_ _ (reach "u-1" [] [] hired)
          (then_ (reserve idle) hired
            (then_ idle (reserve idle) at_start (reserves idle refl (omega arith)))
            (spawns (reserve idle) refl))
          (reaches "u-1" [] [] hired refl))
        (reserves (reach "u-1" [] [] hired) refl (omega arith)))
      (spawns (reserve (reach "u-1" [] [] hired)) refl))

-- The broker loses one reply, and then answers.
abbrev flaky : ℕ → AckReply × ℕ
flaky n = elim n [ zero ↦ (transient, 1500000000) | suc m ↦ (answered, 1000000) ]

confirm_ack_terminates_example : (confirm_ack flaky (λ n. alive) 21 0 5000000000).0 ≢ out_of_fuel
confirm_ack_terminates_example =
    confirm_ack_terminates flaky (λ n. alive) 20 0 5000000000 (omega arith)

-- A lease of a minute, of which a probe may use forty-five seconds.
run_timeout_bounds_example :
    ((is_nonpositive (pos (minutes 5)) ≡ true)
      × (run_timeout (pos (minutes 5)) (pos 0) (minutes 61) (minutes 60) ≡ pos (minutes 1)))
    ⊎ ((c : ℕ) × (t : ℕ) × (pos (minutes 5) ≡ pos c)
        × (run_timeout (pos (minutes 5)) (pos 0) (minutes 61) (minutes 60) ≡ pos t)
        × (0 < t)
        × (t ≤ c)
        × (((minutes 60 + upload_reserve < minutes 61)
              × (minutes 60 + t + upload_reserve ≤ minutes 61))
            ⊎ ((minutes 61 ≤ minutes 60 + upload_reserve)
                × (run_timeout (pos (minutes 5)) (pos 0) 0 (minutes 60) ≡ pos t))))
run_timeout_bounds_example = run_timeout_bounds (pos (minutes 5)) (pos 0) (minutes 61) (minutes 60)

forty_five : run_timeout (pos (minutes 5)) (pos 0) (minutes 61) (minutes 60) ≡ pos (seconds 45)
unfolding run_timeout
forty_five = refl
