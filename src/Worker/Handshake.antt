-- ===== src/Worker/Handshake.antt =====
-- What the handshake budget and the confirmed acknowledgement keep.
use urth.Prelude.{
  ℕ, zero, suc, ◌+◌, ◌*◌, ◌≤◌, ◌≡◌, ◌≢◌, arith, Duration, pos_part, is_nonpositive, if◌then◌else◌,
}
use urth.Worker.Budget.{
  handshake_budget, remaining_after, confirm_ack, confirm_last, ContextAfter, AckReply, out_of_fuel,
  ack_confirm_reserve, default_handshake_budget,
}

-- The window that a consumer's AckWait stands for.
abbrev pub window_of : Duration → ℕ
window_of ack_wait = if is_nonpositive ack_wait then default_handshake_budget else pos_part ack_wait

-- The time to claim and the time to confirm make up the window exactly; the confirmation gets at
-- most its reserve and never more than the claim, and exactly the reserve where the window is at
-- least twice that.
pub handshake_budget_splits :
    (ack_wait : Duration)
    → let split = handshake_budget ack_wait in
      (split.0 + split.1 ≡ window_of ack_wait)
      × (split.1 ≤ split.0)
      × (split.1 ≤ ack_confirm_reserve)
      × (ack_confirm_reserve + ack_confirm_reserve ≤ window_of ack_wait
          → split.1 ≡ ack_confirm_reserve)
unfolding handshake_budget
handshake_budget_splits ack_wait = ground arith

confirm_last-decides :
    (reply : AckReply × ℕ) (remaining : ℕ) → (confirm_last reply remaining).0 ≢ out_of_fuel
unfolding confirm_last
confirm_last-decides reply zero = ground arith
confirm_last-decides reply (suc r) = ground arith

confirm_last_within :
    (reply : AckReply × ℕ) (remaining : ℕ) → (confirm_last reply remaining).1 ≤ remaining
unfolding confirm_last
confirm_last_within reply zero = omega arith
confirm_last_within reply (suc r) = omega arith

-- Confirming an acknowledgement ends: one attempt for each retry pause in the time that remains,
-- and one more, are fuel enough.
pub confirm_ack_terminates :
    (attempt : ℕ → AckReply × ℕ) (context : ℕ → ContextAfter) (fuel n remaining : ℕ)
    → remaining ≤ fuel * 250000000
    → (confirm_ack attempt context (suc fuel) n remaining).0 ≢ out_of_fuel
unfolding confirm_ack
confirm_ack_terminates attempt context fuel n zero h = ground arith
confirm_ack_terminates attempt context zero n (suc r) h = absurd (omega arith)
confirm_ack_terminates attempt context (suc fuel) n (suc r) h =
    let left = remaining_after (attempt n) (suc r) in
    ground (
      arith,
      confirm_ack_terminates attempt context fuel (suc n) left,
      λ (t : ℕ). confirm_last-decides (attempt (suc n)) t,
    )

-- Confirming an acknowledgement takes no longer than the time that remains for it.
pub confirm_ack_within :
    (attempt : ℕ → AckReply × ℕ) (context : ℕ → ContextAfter) (fuel n remaining : ℕ)
    → (confirm_ack attempt context fuel n remaining).1 ≤ remaining
unfolding confirm_ack
confirm_ack_within attempt context zero n remaining = omega arith
confirm_ack_within attempt context (suc fuel) n zero = omega arith
confirm_ack_within attempt context (suc fuel) n (suc r) = ground (
  arith,
  confirm_ack_within attempt context fuel (suc n) (remaining_after (attempt n) (suc r)),
  λ (t : ℕ). confirm_last_within (attempt (suc n)) t,
)
