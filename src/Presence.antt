-- ===== src/Presence.antt =====
-- pkg/urth/presence.go: what the two liveness timestamps of a worker mean.
pub mod Eviction
pub mod Contact
pub mod Cadence
pub mod Reporting
use urth.Prelude.{
  ◌*◌, Bool, true, false, not, ◌&&◌, Option, none, some, Time, Duration, pos, minutes, sub_time,
  is_before, is_nonpositive, ltb_ℤ, ◌==◌, if◌then◌else◌,
}
use urth.Types.{WorkerStatus}

-- What one signal says about a worker.
pub data WorkerPresence : Type 0 where
  online offline unknown : WorkerPresence

-- The verdict from both signals.
pub data WorkerCondition : Type 0 where
  online offline unknown api_unreachable nats_unreachable : WorkerCondition

pub record WorkerPresenceReport : Type 0 where
  pub api : WorkerPresence
  pub nats : WorkerPresence
  pub condition : WorkerCondition

-- `DefaultWorkerHeartbeatInterval * DefaultWorkerOfflineAfterFactor`.
abbrev pub default_offline_after : Duration
default_offline_after = pos (minutes 1 * 3)

pub presence_of : Option Time → Time → Duration → WorkerPresence
presence_of none now offline_after = WorkerPresence.unknown
presence_of (some seen) now offline_after =
    if seen == 0
    then WorkerPresence.unknown
    else (if ltb_ℤ offline_after (sub_time now seen)
        then WorkerPresence.offline
        else WorkerPresence.online)

pub downgrade_to_offline : WorkerPresence → WorkerPresence
downgrade_to_offline WorkerPresence.unknown = WorkerPresence.unknown
downgrade_to_offline _ = WorkerPresence.offline

pub condition_of : WorkerPresence → WorkerPresence → WorkerCondition
condition_of WorkerPresence.online WorkerPresence.online = WorkerCondition.online
condition_of WorkerPresence.online _ = WorkerCondition.nats_unreachable
condition_of _ WorkerPresence.online = WorkerCondition.api_unreachable
condition_of WorkerPresence.unknown WorkerPresence.unknown = WorkerCondition.unknown
condition_of _ _ = WorkerCondition.offline

-- `derefTime`: absence is the zero time.
abbrev pub deref_time : Option Time → Time
deref_time none = 0
deref_time (some t) = t

abbrev pub has_left : Option Time → Time → Time → Bool
has_left none api nats = false
has_left (some left) api nats = not (is_before left api) && not (is_before left nats)

abbrev pub report_of : WorkerPresence → WorkerPresence → WorkerPresenceReport
report_of api nats = record { api = api; nats = nats; condition = condition_of api nats }

unfoldable pub worker_presence_at : WorkerStatus → Time → Duration → WorkerPresenceReport
unfolding presence_of downgrade_to_offline condition_of
worker_presence_at status now offline_after =
    let offline_after' =
      if is_nonpositive offline_after then default_offline_after else offline_after in
    let api = presence_of status.last_seen_time now offline_after' in
    let nats = presence_of status.nats_last_seen_time now offline_after' in
    if has_left status.left_at (deref_time status.last_seen_time)
      (deref_time status.nats_last_seen_time)
    then report_of (downgrade_to_offline api) (downgrade_to_offline nats)
    else report_of api nats

abbrev pub is_absent : Option Time → Bool
is_absent none = true
is_absent (some _) = false

-- `WorkerInstanceStatus.IsSilent`.
unfoldable pub is_silent : WorkerStatus → Time → Bool
is_silent s cutoff =
    if is_absent s.last_seen_time && is_absent s.nats_last_seen_time
    then false
    else is_before (deref_time s.last_seen_time) cutoff
      && is_before (deref_time s.nats_last_seen_time) cutoff
