-- ===== src/Worker/Messages.antt =====
-- When a message leaves the queue, and when a run is executed.
use urth.Prelude.{
  ℕ, String, Bool, true, false, ◌||◌, ◌≡◌, refl, ◌⊎◌, inl, inr, Option, none, some, List, [], ◌∷◌,
  ◌++◌, sym, ap, ◌∙◌, ◌=ₛ◌, Bool-cases, Option-cases, eq_iff, arith,
}
use urth.Claim.{AuthJobResponse}
use urth.Worker.Envelope.{DispatchEnvelope, unmarshal_envelope}
use urth.Worker.InFlight.{acquire, is_held}
use urth.Worker.Handle.{
  classify_claim_failure, FailureReport, Action, asks_claim, reports, acks, terminates, confirms,
  executes, ClaimReply, granted, refused, report_and_terminate, claim_request, claim_outcome,
  apply_disposition, claim_and_apply, handle, Surroundings, Message, may_terminate, failure_report,
  malformed_envelope, misrouted_dispatch, policy_refused,
}

reply-cases :
    (r : ClaimReply)
    → ((auth : AuthJobResponse) × (r ≡ granted auth)) ⊎ ((status : Option ℕ) × (r ≡ refused status))
reply-cases (granted auth) = inl (auth, refl)
reply-cases (refused status) = inr (status, refl)

abbrev pub any : (Action → Bool) → List Action → Bool
any p [] = false
any p (a ∷ actions) = p a || any p actions

abbrev pub is_execution : Action → Bool
is_execution (executes _) = true
is_execution _ = false

-- The message is gone for good, by an acknowledgement that is not that of a granted claim.
abbrev pub is_removal : Action → Bool
is_removal acks = true
is_removal terminates = true
is_removal _ = false

-- The worker may ask for the run of the message: it can be read, it is for the runner of this
-- worker, and this process does not execute the run already.
pub record IsAskable (around : Surroundings) (runs : List String) (msg : Message) : Type 0 where
  pub readable : (unmarshal_envelope msg.decoded).1 ≡ none
  pub routed : msg.decoded.0.runner_uid ≡ around.runner_uid
  pub free : is_held msg.decoded.0.result_uid runs ≡ false

abbrev pub reply_to : Surroundings → Message → ClaimReply
reply_to around msg = around.claim_reply (claim_request around msg.decoded.0)

pub handle-IsAskable :
    (around : Surroundings) (runs : List String) (msg : Message)
    → IsAskable around runs msg
    → handle around runs msg
      ≡ claim_and_apply around msg.decoded.0 (failure_report msg msg.decoded.0 true policy_refused)
unfolding handle unmarshal_envelope acquire
handle-IsAskable around runs msg ask =
    ground
      (arith, ask.readable, ask.routed, ask.free, eq_iff msg.decoded.0.runner_uid around.runner_uid)

-- What happens to a message that is not askable: dropped as a duplicate, or reported.
data Disposed (around : Surroundings) (runs : List String) (msg : Message) : Type 0 where
  askable : IsAskable around runs msg → Disposed around runs msg
  duplicate :
      is_held msg.decoded.0.result_uid runs ≡ true
      → handle around runs msg ≡ acks ∷ []
      → Disposed around runs msg
  undeliverable :
      (report : FailureReport)
      → handle around runs msg ≡ report_and_terminate around report
      → Disposed around runs msg

handle-Disposed :
    (around : Surroundings) (runs : List String) (msg : Message) → Disposed around runs msg
unfolding handle unmarshal_envelope acquire
handle-Disposed around runs msg = elim (Option-cases (unmarshal_envelope msg.decoded).1) [
  | inr (e, bad) ↦
      undeliverable (failure_report msg msg.decoded.0 false malformed_envelope)
        (ground (arith, bad))
  | inl readable ↦ elim (Bool-cases (msg.decoded.0.runner_uid =ₛ around.runner_uid)) [
    | inr other ↦
        undeliverable (failure_report msg msg.decoded.0 true misrouted_dispatch)
          (ground (arith, readable, other))
    | inl routed ↦ elim (Bool-cases (is_held msg.decoded.0.result_uid runs)) [
      | inl held ↦ duplicate held (ground (arith, readable, routed, held))
      | inr free ↦ askable (record {
        readable = readable;
        routed = ground (arith, routed, eq_iff msg.decoded.0.runner_uid around.runner_uid);
        free = free;
      })
    ]
  ]
]

report_and_terminate-actions :
    (around : Surroundings) (report : FailureReport)
    → (any is_execution (report_and_terminate around report) ≡ false)
      × (any is_removal (report_and_terminate around report)
          ≡ may_terminate (around.report_reply report))
      × (may_terminate (around.report_reply report) ≡ true
          → report_and_terminate around report ≡ reports report ∷ terminates ∷ [])
unfolding report_and_terminate
report_and_terminate-actions around report = ground arith

claim_and_apply-execution :
    (around : Surroundings) (envelope : DispatchEnvelope) (report : FailureReport)
    → any is_execution (claim_and_apply around envelope report) ≡ true
    → (auth : AuthJobResponse) × (around.claim_reply (claim_request around envelope) ≡ granted auth)
unfolding claim_and_apply apply_disposition claim_outcome classify_claim_failure
claim_and_apply-execution around envelope report h =
    elim (reply-cases (around.claim_reply (claim_request around envelope))) [
      | inl (auth, e) ↦ (auth, e)
      | inr (status, e) ↦ absurd (ground (arith, report_and_terminate-actions around report))
    ]

claim_and_apply-granted :
    (around : Surroundings) (envelope : DispatchEnvelope) (report : FailureReport)
    (auth : AuthJobResponse)
    → around.claim_reply (claim_request around envelope) ≡ granted auth
    → claim_and_apply around envelope report
      ≡ asks_claim (claim_request around envelope)
        ∷ confirms around.ack_verdict
        ∷ executes auth
        ∷ []
unfolding claim_and_apply apply_disposition claim_outcome
claim_and_apply-granted around envelope report auth h = ground (arith, h)

-- A run is executed exactly if the message is askable and the API grants the claim; the worker
-- then asks, attempts the confirmed acknowledgement, and only then executes what was granted,
-- once, whatever became of the acknowledgement.
pub handle-executes :
    (around : Surroundings) (runs : List String) (msg : Message)
    → (any is_execution (handle around runs msg) ≡ true
        → IsAskable around runs msg
          × ((auth : AuthJobResponse) × (reply_to around msg ≡ granted auth)))
      × ((auth : AuthJobResponse)
          → IsAskable around runs msg
          → reply_to around msg ≡ granted auth
          → handle around runs msg
            ≡ asks_claim (claim_request around msg.decoded.0)
              ∷ confirms around.ack_verdict
              ∷ executes auth
              ∷ [])
handle-executes around runs msg = (
  λ h. executed h (handle-Disposed around runs msg),
  λ auth ask reply.
      handle-IsAskable around runs msg ask
      ∙ claim_and_apply-granted around msg.decoded.0 _ auth reply,
)
  where
    executed :
        any is_execution (handle around runs msg) ≡ true
        → Disposed around runs msg
        → IsAskable around runs msg
          × ((auth : AuthJobResponse) × (reply_to around msg ≡ granted auth))
    executed h (askable ask) = (
      ask,
      claim_and_apply-execution around msg.decoded.0 _
          (ap (any is_execution) (sym (handle-IsAskable around runs msg ask)) ∙ h),
    )
    executed h (duplicate held e) = absurd (ground arith)
    executed h (undeliverable report e) =
        absurd (ground (arith, report_and_terminate-actions around report))

-- Why a message was removed: this process executes its run already; or the API called the run
-- obsolete; or its failure was reported before it was terminated, and the report was recorded or
-- will be refused for ever.
pub data Excuse (around : Surroundings) (runs : List String) (msg : Message) : Type 0 where
  executing : is_held msg.decoded.0.result_uid runs ≡ true → Excuse around runs msg
  stale : reply_to around msg ≡ refused (some 409) → Excuse around runs msg
  reported :
      (before : List Action) (report : FailureReport)
      → handle around runs msg ≡ before ++ (reports report ∷ terminates ∷ [])
      → may_terminate (around.report_reply report) ≡ true
      → Excuse around runs msg

claim_and_apply-removal :
    (around : Surroundings) (envelope : DispatchEnvelope) (report : FailureReport)
    → any is_removal (claim_and_apply around envelope report) ≡ true
    → (around.claim_reply (claim_request around envelope) ≡ refused (some 409))
      ⊎ ((claim_and_apply around envelope report
            ≡ (asks_claim (claim_request around envelope) ∷ [])
              ++ (reports report ∷ terminates ∷ []))
          × (may_terminate (around.report_reply report) ≡ true))
unfolding claim_and_apply apply_disposition claim_outcome classify_claim_failure
claim_and_apply-removal around envelope report h =
    elim (reply-cases (around.claim_reply (claim_request around envelope))) [
      | inl (auth, e) ↦ absurd (ground arith)
      | inr (status, e) ↦ ground (arith, report_and_terminate-actions around report, e)
    ]

-- A message is removed only with an excuse.
pub handle-removes :
    (around : Surroundings) (runs : List String) (msg : Message)
    → any is_removal (handle around runs msg) ≡ true
    → Excuse around runs msg
handle-removes around runs msg h = excused (handle-Disposed around runs msg)
  where
    excused : Disposed around runs msg → Excuse around runs msg
    excused (duplicate held e) = executing held
    excused (undeliverable report e) =
        let (_, removed, left) = report_and_terminate-actions around report in
        let may = sym removed ∙ ap (any is_removal) (sym e) ∙ h in
        reported [] report (e ∙ left may) may
    excused (askable ask) =
        let report = failure_report msg msg.decoded.0 true policy_refused in
        let same = handle-IsAskable around runs msg ask in
        elim (claim_and_apply-removal around msg.decoded.0 report
          (ap (any is_removal) (sym same) ∙ h)) [
            | inl gone ↦ stale gone
            | inr (left, may) ↦
                reported (asks_claim (claim_request around msg.decoded.0) ∷ []) report (same ∙ left)
                  may
          ]
