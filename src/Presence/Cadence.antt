-- ===== src/Presence/Cadence.antt =====
-- How often a worker reports: the loop of reportPresence in pkg/worker/worker.go.
use urth.Prelude.{
  ◌≡◌, refl, true, false, Option, none, some, List, [], ◌∷◌, ◌⊎◌, inl, inr, Duration, arith, ◌≤ℤ◌,
}
use urth.Presence.Contact.{
  HeartbeatResponse, min_worker_heartbeat_interval, next_interval, first_interval, Report, Turn,
  elapsed, stopped, report_from, report_presence,
}

-- Every report but a farewell comes five seconds or more after the one before it, and nothing
-- comes after a farewell.
abbrev pub IsPaced : List Report → Type 0
IsPaced [] = Unit {0}
IsPaced (r ∷ rs) =
    ((r.is_leaving ≡ false) × (min_worker_heartbeat_interval ≤ℤ r.waited) × IsPaced rs)
    ⊎ ((r.is_leaving ≡ true) × (rs ≡ []))

next_interval_lem :
    (current : Duration) (reply : Option HeartbeatResponse)
    → min_worker_heartbeat_interval ≤ℤ current
    → min_worker_heartbeat_interval ≤ℤ next_interval current reply
unfolding next_interval
next_interval_lem current none h = h
next_interval_lem current (some r) h = ground arith

report_from-IsPaced :
    (interval : Duration) (turns : List Turn)
    → min_worker_heartbeat_interval ≤ℤ interval
    → IsPaced (report_from interval turns)
unfolding report_from
report_from-IsPaced interval [] h = tt
report_from-IsPaced interval (elapsed reply ∷ turns) h = inl (
  refl,
  h,
  report_from-IsPaced (next_interval interval reply) turns (next_interval_lem interval reply h),
)
report_from-IsPaced interval (stopped after ∷ turns) h = inr (refl, refl)

-- However it is configured and whatever it is answered, a worker makes each report, but for its
-- farewell, at least five seconds after the last one, and none after the farewell.
pub report_presence-IsPaced :
    (configured : Duration) (reply : Option HeartbeatResponse) (turns : List Turn)
    → IsPaced (report_presence configured reply turns)
unfolding report_presence
report_presence-IsPaced configured reply turns =
    report_from-IsPaced (next_interval (first_interval configured) reply) turns
      (next_interval_lem (first_interval configured) reply (ground arith))
