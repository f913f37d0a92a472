-- ===== src/Presence/Eviction.antt =====
-- The verdict on a worker, when it is online, and why the reconciler evicts no live worker.
use urth.Prelude.{
  ℕ, ◌+◌, ◌≤◌, ◌<◌, ◌≡◌, ◌≢◌, ◌↔◌, true, Option, none, some, Time, pos, arith, max_duration,
}
use urth.Types.{WorkerStatus}
use urth.Presence.{
  WorkerCondition, WorkerPresence, worker_presence_at, is_silent, deref_time, presence_of,
  condition_of,
}

-- A signal was heard within the last `after` nanoseconds, at a time that is not the zero time.
abbrev pub IsFresh : Option Time → Time → ℕ → Type 0
IsFresh none now after = ⊥
IsFresh (some seen) now after = (seen ≢ 0) × (now ≤ seen + after)

-- The worker has said goodbye, and neither signal was heard after that.
abbrev pub IsGone : Option Time → Time → Time → Type 0
IsGone none api nats = ⊥
IsGone (some left) api nats = (api ≤ left) × (nats ≤ left)

-- A recorded time is never the zero time.
abbrev pub IsRecorded : Option Time → Type 0
IsRecorded none = Unit {0}
IsRecorded (some seen) = seen ≢ 0

presence_of-online :
    (seen : Option Time) (now after : ℕ)
    → after < max_duration
    → (presence_of seen now (pos after) ≡ WorkerPresence.online) ↔ IsFresh seen now after
unfolding presence_of
presence_of-online none now after h = ground arith
presence_of-online (some seen) now after h = ground arith

condition_of-online :
    (a b : WorkerPresence)
    → (condition_of a b ≡ WorkerCondition.online)
      ↔ ((a ≡ WorkerPresence.online) × (b ≡ WorkerPresence.online))
unfolding condition_of
condition_of-online a b = ground arith

-- For a positive grace period that a Go duration can hold, a worker counts as online exactly when
-- both signals were heard within that period, and it has not said goodbye since the later of them.
pub worker_presence_at-online :
    (s : WorkerStatus) (now after : ℕ)
    → 0 < after
    → after < max_duration
    → ((worker_presence_at s now (pos after)).condition ≡ WorkerCondition.online) ↔ (
        IsFresh s.last_seen_time now after
        × IsFresh s.nats_last_seen_time now after
        × ¬ IsGone s.left_at (deref_time s.last_seen_time) (deref_time s.nats_last_seen_time))
unfolding worker_presence_at
worker_presence_at-online s now after h k = ground (
  arith,
  presence_of-online s.last_seen_time now after k,
  presence_of-online s.nats_last_seen_time now after k,
)

-- A worker whom the reconciler may evict, silent since a cutoff that lies at least the grace period
-- back, is reported as offline, provided that no recorded time is the zero time: eviction never
-- hits a worker that is online, half reachable or never heard of.
pub is_silent-offline :
    (s : WorkerStatus) (now cutoff after : ℕ)
    → 0 < after
    → after < max_duration
    → cutoff + after ≤ now
    → IsRecorded s.last_seen_time
    → IsRecorded s.nats_last_seen_time
    → is_silent s cutoff ≡ true
    → (worker_presence_at s now (pos after)).condition ≡ WorkerCondition.offline
unfolding worker_presence_at is_silent
is_silent-offline s now cutoff after h k far api nats silent = ground arith
