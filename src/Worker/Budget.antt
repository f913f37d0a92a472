-- ===== src/Worker/Budget.antt =====
-- The time budget of a claim handshake, and the confirmed acknowledgement (worker/ack.go).
use urth.Prelude.{
  ℕ, zero, suc, ◌+◌, ◌-◌, ◌/◌, min, Duration, pos_part, is_nonpositive, if◌then◌else◌,
}

abbrev pub ack_confirm_reserve : ℕ
ack_confirm_reserve = 5000000000

abbrev pub ack_confirm_attempt : ℕ
ack_confirm_attempt = 1500000000

abbrev pub ack_confirm_retry_pause : ℕ
ack_confirm_retry_pause = 250000000

abbrev pub default_handshake_budget : ℕ
default_handshake_budget = 30000000000

-- Nanoseconds to claim, and nanoseconds to confirm.
unfoldable pub handshake_budget : Duration → ℕ × ℕ
handshake_budget ack_wait =
    let window = if is_nonpositive ack_wait then default_handshake_budget else pos_part ack_wait in
    let ack = min ack_confirm_reserve (window / 2) in (window - ack, ack)

-- What one `DoubleAck` answers: nothing wrong, `ErrMsgAlreadyAckd`, `ErrMsgNoReply` or
-- `ErrMsgNotBound`, or any other error.
pub data AckReply : Type 0 where
  answered already_acked unanswerable transient : AckReply

pub data AckVerdict : Type 0 where
  confirmed unconfirmed unconfirmable out_of_fuel : AckVerdict

abbrev pub lasting : AckReply × ℕ → ℕ → ℕ
lasting reply remaining = min reply.1 (min remaining ack_confirm_attempt)

-- What remains after a failed attempt and the pause that follows it.
abbrev pub remaining_after : AckReply × ℕ → ℕ → ℕ
remaining_after reply remaining =
    let left = remaining - lasting reply remaining in left - min left ack_confirm_retry_pause

-- The context after a failed attempt: alive, ended by then, or ending in the pause that follows,
-- after some time.
pub data ContextAfter : Type 0 where
  alive ended : ContextAfter
  ends_in_pause : ℕ → ContextAfter

abbrev pub verdict_on : AckReply → AckVerdict
verdict_on answered = confirmed
verdict_on already_acked = confirmed
verdict_on unanswerable = unconfirmable
verdict_on transient = unconfirmed

-- The attempt that is made with a context that has ended, which is the last one.
unfoldable pub confirm_last : AckReply × ℕ → ℕ → AckVerdict × ℕ
confirm_last reply zero = (unconfirmed, 0)
confirm_last reply (suc r) = (verdict_on reply.0, lasting reply (suc r))

-- `confirmAck` from its attempt `n` on, with `remaining` nanoseconds before its deadline. The
-- broker answers attempt `n` with `attempt n`, after the time that stands beside the answer but
-- not beyond the timeout of the attempt; `context n` is the context after it. The result is the
-- verdict, and the time that it took.
unfoldable pub confirm_ack : (ℕ → AckReply × ℕ) → (ℕ → ContextAfter) → ℕ → ℕ → ℕ → AckVerdict × ℕ
unfolding confirm_last
confirm_ack attempt context zero n remaining = (out_of_fuel, 0)
confirm_ack attempt context (suc fuel) n zero = (unconfirmed, 0)
confirm_ack attempt context (suc fuel) n (suc r) =
    let lasted = lasting (attempt n) (suc r) in
    let left = remaining_after (attempt n) (suc r) in
    elim (attempt n).0 [
      | answered ↦ (confirmed, lasted)
      | already_acked ↦ (confirmed, lasted)
      | unanswerable ↦ (unconfirmable, lasted)
      | transient ↦ elim (context n) [
        | ended ↦ (unconfirmed, lasted)
        | alive ↦
            let rest = confirm_ack attempt context fuel (suc n) left in
            (rest.0, suc r - left + rest.1)
        | ends_in_pause after ↦
            let spent = lasted + min after (suc r - left - lasted) in
            let last = confirm_last (attempt (suc n)) (suc r - spent) in (last.0, spent + last.1)
      ]
    ]
