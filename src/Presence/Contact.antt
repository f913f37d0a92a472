-- ===== src/Presence/Contact.antt =====
-- Who was heard from, and how often: pkg/urth/presence_store.go, Heartbeat in pkg/urth/service.go,
-- the watcher of announcements in pkg/natsq/presence_watcher.go and presence.go, and the reports of
-- a worker in pkg/worker/worker.go.
use urth.Prelude.{
  String, Bool, true, false, not, ◌&&◌, Option, none, some, List, [], ◌∷◌, length, where_, ◌==◌,
  ◌=ₛ◌, if◌then◌else◌, Time, Duration, pos, seconds, ltb_ℤ,
}
use urth.Types.{Worker, WorkerStatus, WorkerContact, heartbeat}

-- A row of the table of workers; a worker that was dropped keeps its row.
pub record WorkerRow : Type 0 where
  pub entry : Worker
  pub is_deleted : Bool

-- `WHERE runner_id = ?`, where a runner is given.
abbrev pub is_member : Option String → Worker → Bool
is_member none w = true
is_member (some runner) w = w.runner_id =ₛ runner

abbrev pub is_touched : String → Option String → WorkerRow → Bool
is_touched uid runner row =
    row.entry.uid =ₛ uid && (not row.is_deleted && is_member runner row.entry)

-- `UpdateColumns`.
abbrev pub update_columns :
    (WorkerRow → Bool) → (WorkerStatus → WorkerStatus) → List WorkerRow → List WorkerRow
update_columns test change [] = []
update_columns test change (row ∷ rows) =
    let rest = update_columns test change rows in
    if test row
    then record row { entry = record row.entry { status = change row.entry.status } } ∷ rest
    else row ∷ rest

-- A write, with whether it found its worker; nothing is known of that where it fails.
unfoldable pub touch :
    Bool
    → String
    → Option String
    → (WorkerStatus → WorkerStatus)
    → List WorkerRow
    → List WorkerRow × Option Bool
touch fails uid runner change rows =
    if uid =ₛ ""
    then (rows, some false)
    else (if fails then (rows, none) else (
      update_columns (is_touched uid runner) change rows,
      some (length (where_ (is_touched uid runner) rows) == 1),
    ))

abbrev pub contacted : Time → WorkerContact → Bool → WorkerStatus → WorkerStatus
contacted at via leaving s = record s {
  last_seen_time = some at;
  last_seen_via = some via;
  left_at = if leaving then some at else none;
}

abbrev pub announced : Time → WorkerStatus → WorkerStatus
announced at s = record s { nats_last_seen_time = some at; left_at = none }

unfoldable pub record_contact :
    Bool → List WorkerRow → String → Time → WorkerContact → Bool → List WorkerRow × Option Bool
unfolding touch
record_contact fails rows uid at via leaving = touch fails uid none (contacted at via leaving) rows

unfoldable pub record_nats_presence :
    Bool → List WorkerRow → String → String → Time → List WorkerRow × Option Bool
unfolding touch
record_nats_presence fails rows uid runner at =
    if runner =ₛ "" then (rows, some false) else touch fails uid (some runner) (announced at) rows

pub record PresenceAnnouncement : Type 0 where
  pub runner_uid : String
  pub worker_uid : String

-- `ParsePresenceSubject`, of the tokens between the dots; `is_uuid` is `uuid.Parse`.
unfoldable pub parse_presence_subject : (String → Bool) → List String → Option PresenceAnnouncement
parse_presence_subject is_uuid (a ∷ b ∷ c ∷ runner ∷ worker ∷ []) =
    if (a =ₛ "urth" && (b =ₛ "v1" && c =ₛ "presence")) && (is_uuid runner && is_uuid worker)
    then some (record { runner_uid = runner; worker_uid = worker })
    else none
parse_presence_subject is_uuid _ = none

-- `PresenceWatcher.handle`.
unfoldable pub watch_presence :
    (String → Bool) → Bool → List WorkerRow → List String → Time → List WorkerRow
unfolding parse_presence_subject record_nats_presence
watch_presence is_uuid fails rows subject now = elim (parse_presence_subject is_uuid subject) [
  | none ↦ rows
  | some a ↦ (record_nats_presence fails rows a.worker_uid a.runner_uid now).0
]

-- `GetByUID` of a worker.
unfoldable pub row_at : String → List WorkerRow → Option Worker
row_at uid [] = none
row_at uid (row ∷ rows) =
    let rest = row_at uid rows in
    if row.entry.uid =ₛ uid && not row.is_deleted then some row.entry else rest

pub data HeartbeatError : Type 0 where
  unauthorized unavailable not_found : HeartbeatError

pub record HeartbeatResponse : Type 0 where
  pub interval : Duration
  pub is_paused : Bool

pub data Heard : Type 0 where
  unheard : HeartbeatError → Heard
  heard : HeartbeatResponse → Heard

-- What the server is assembled with; a session names its worker.
pub record Listener : Type 0 where
  pub worker_of : String → Option String
  pub heartbeat_interval : Duration
  pub has_presence : Bool

abbrev pub response_of : Listener → Worker → Heard
response_of l w = heard (record { interval = l.heartbeat_interval; is_paused = w.status.is_paused })

abbrev pub answer_contact : Option Bool → Heard → Heard
answer_contact none answer = unheard unavailable
answer_contact (some false) answer = unheard not_found
answer_contact (some true) answer = answer

-- `Heartbeat`, where the read or the write may fail.
unfoldable pub receive_heartbeat :
    Listener → Bool → Bool → List WorkerRow → String → Bool → Time → List WorkerRow × Heard
unfolding record_contact row_at
receive_heartbeat l read_fails write_fails rows session leaving now = elim (l.worker_of session) [
  | none ↦ (rows, unheard unauthorized)
  | some uid ↦ if read_fails then (rows, unheard unavailable) else elim (row_at uid rows) [
    | none ↦ (rows, unheard not_found)
    | some w ↦
        if l.has_presence
        then (let written = record_contact write_fails rows uid now heartbeat leaving in
            (written.0, answer_contact written.1 (response_of l w)))
        else (rows, response_of l w)
  ]
]

abbrev pub min_worker_heartbeat_interval : Duration
min_worker_heartbeat_interval = pos (seconds 5)

-- `heartbeat` of a worker: the pause after a report with this reply.
unfoldable pub next_interval : Duration → Option HeartbeatResponse → Duration
next_interval current none = current
next_interval current (some response) =
    if not (ltb_ℤ response.interval min_worker_heartbeat_interval)
    then response.interval
    else current

abbrev pub first_interval : Duration → Duration
first_interval configured =
    if ltb_ℤ configured min_worker_heartbeat_interval
    then min_worker_heartbeat_interval
    else configured

-- A heartbeat of a worker: how long after the last one it is made, and whether it is the farewell.
pub record Report : Type 0 where
  pub waited : Duration
  pub is_leaving : Bool

-- How a wait of `reportPresence` ends: with its time, and the reply to the report after it, or
-- earlier, with the context, after some time.
pub data Turn : Type 0 where
  elapsed : Option HeartbeatResponse → Turn
  stopped : Duration → Turn

-- The loop of `reportPresence`, which the end of the context leaves with a farewell. The
-- announcements on the queue, one with each report but the farewell, are left out.
unfoldable pub report_from : Duration → List Turn → List Report
unfolding next_interval
report_from interval [] = []
report_from interval (elapsed reply ∷ turns) =
    record { waited = interval; is_leaving = false }
    ∷ report_from (next_interval interval reply) turns
report_from interval (stopped after ∷ turns) = record { waited = after; is_leaving = true } ∷ []

-- The reports after the first, which is made at once and is answered with `reply`.
unfoldable pub report_presence : Duration → Option HeartbeatResponse → List Turn → List Report
unfolding report_from
report_presence configured reply turns =
    report_from (next_interval (first_interval configured) reply) turns
