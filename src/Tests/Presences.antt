-- ===== src/Tests/Presences.antt =====
-- The reports of a worker of the small fleet.
use urth.Prelude.{
  String, true, false, ◌≡◌, refl, none, some, List, [], ◌∷◌, pos, seconds, ◌=ₛ◌, if◌then◌else◌,
  eq_iff, arith,
}
use urth.Types.{Worker, WorkerStatus, heartbeat}
use urth.Presence.{worker_presence_at, WorkerCondition}
use urth.Presence.Contact.{
  WorkerRow, touch, row_at, record_contact, record_nats_presence, contacted, HeartbeatResponse,
  Listener, receive_heartbeat, elapsed, stopped, report_from, report_presence, next_interval,
  watch_presence, parse_presence_subject,
}
use urth.Presence.Reporting.{receive_heartbeat-IsHeard, record_contact-online}
use urth.Presence.Cadence.{report_presence-IsPaced, IsPaced}
use urth.Tests.Fleet.{worker}

abbrev fleet : List WorkerRow
fleet =
    record { entry = worker "w-1"; is_deleted = false }
    ∷ record { entry = worker "w-2"; is_deleted = true }
    ∷ []

abbrev listener : Listener
listener = record {
  worker_of = λ session. if session =ₛ "session-1" then some "w-1" else none;
  heartbeat_interval = pos (seconds 60);
  has_presence = true;
}

abbrev response : HeartbeatResponse
response = record { interval = pos (seconds 60); is_paused = false }

receive_heartbeat-IsHeard_example :
    (uid : String) × (w : Worker) × (listener.worker_of "session-1" ≡ some uid)
    × (row_at uid fleet ≡ some w)
    × (response ≡ record { interval = listener.heartbeat_interval; is_paused = w.status.is_paused })
    × (row_at "w-1" (receive_heartbeat listener false false fleet "session-1" false 1000).0 ≡ (
        if "w-1" =ₛ uid
        then some (record w { status = contacted 1000 heartbeat false w.status })
        else row_at "w-1" fleet))
unfolding receive_heartbeat record_contact touch row_at
receive_heartbeat-IsHeard_example =
    receive_heartbeat-IsHeard listener false false fleet "session-1" "w-1" false 1000 response refl
      refl

record_contact-online_example :
    (status : WorkerStatus) × (row_at "w-1"
        (record_contact false
          (record_nats_presence false fleet "w-1" "r-1" 900).0
          "w-1"
          950
          heartbeat
          true).0
      ≡ some (record (worker "w-1") { status = status }))
    × (status.is_paused ≡ false)
    × ((worker_presence_at status 1000 (pos 500)).condition ≡ WorkerCondition.offline)
unfolding row_at
record_contact-online_example =
    record_contact-online fleet (worker "w-1") 900 950 1000 500 true
      (ground (arith, eq_iff "w-1" "")) (ground (arith, eq_iff "r-1" "")) refl (omega arith)
      (omega arith) (omega arith) (omega arith) (omega arith) (omega arith)

-- An interval that is too short is not taken over, and the farewell comes early.
report_presence-IsPaced_example : IsPaced (
    report_presence
      (pos 0)
      (some (record { interval = pos 7; is_paused = false }))
      (elapsed none ∷ stopped (pos 1) ∷ elapsed none ∷ []))
report_presence-IsPaced_example =
    report_presence-IsPaced (pos 0) (some (record { interval = pos 7; is_paused = false }))
      (elapsed none ∷ stopped (pos 1) ∷ elapsed none ∷ [])

last_words :
    report_presence (pos 0) none (elapsed none ∷ stopped (pos 1) ∷ elapsed none ∷ [])
    ≡ record { waited = pos (seconds 5); is_leaving = false }
      ∷ record { waited = pos 1; is_leaving = true }
      ∷ []
unfolding report_presence report_from next_interval
last_words = refl

-- A worker is heard only under the runner that it belongs to.
watched :
    row_at "w-1" (
      watch_presence
        (λ text. true)
        false
        fleet
        ("urth" ∷ "v1" ∷ "presence" ∷ "r-2" ∷ "w-1" ∷ [])
        900)
    ≡ some (worker "w-1")
unfolding watch_presence parse_presence_subject record_nats_presence touch row_at
watched = refl
