-- ===== src/Outbox/Backoff.antt =====
-- The retry delays of the relay.
use urth.Prelude.{
  ℕ, zero, suc, doubled, ◌-◌, ◌*◌, ◌≤◌, min, true, false, ◌≡◌, refl, inl, inr, ltb, arith,
  Bool-cases,
}
use urth.Outbox.{DispatchRelay, OutboxEntry, double_until, backoff_for}

doubled_grows : (b n : ℕ) → b ≤ doubled b n
doubled_grows b zero = omega arith
doubled_grows b (suc n) = omega (arith, doubled_grows (b * 2) n)

min-double_until :
    (maximum left backoff : ℕ)
    → min (double_until maximum left backoff) maximum ≡ min (doubled backoff left) maximum
unfolding double_until
min-double_until maximum zero backoff = refl
min-double_until maximum (suc left) backoff = elim (Bool-cases (ltb backoff maximum)) [
  | inl below ↦ ground (arith, min-double_until maximum left (backoff * 2))
  | inr above ↦ ground (arith, doubled_grows (backoff * 2) left)
]

-- A dispatch that failed for now is retried after the initial delay, doubled once for each attempt
-- after the first, but never later than the longest delay; one that failed permanently waits an
-- hour.
pub backoff_for_doubles :
    (relay : DispatchRelay) (entry : OutboxEntry)
    → (backoff_for relay entry false
        ≡ min (doubled relay.retry_backoff (entry.attempts - 1)) relay.max_backoff)
      × (backoff_for relay entry true ≡ 3600000000000)
unfolding backoff_for
backoff_for_doubles relay entry =
    ground (arith, min-double_until relay.max_backoff (entry.attempts - 1) relay.retry_backoff)
