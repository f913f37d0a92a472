-- ===== src/Presence/Reporting.antt =====
-- What a report of liveness changes, and how it shows in the verdict on the worker.
use urth.Prelude.{
  ℕ, String, Bool, true, false, ◌&&◌, ◌+◌, ◌≤◌, ◌<◌, ◌≡◌, ◌≢◌, refl, sym, ap, ◌∙◌, Option, none,
  some, List, [], ◌∷◌, ◌=ₛ◌, if◌then◌else◌, Time, pos, Bool-cases, Option-cases, inl, inr, eq_iff,
  eq_refl, arith, max_duration,
}
use mathlib.Core.Option.{map}
use urth.Types.{Worker, WorkerStatus, heartbeat}
use urth.Presence.{
  WorkerCondition, worker_presence_at, presence_of, condition_of, downgrade_to_offline,
}
use urth.Presence.Contact.{
  WorkerRow, is_member, is_touched, update_columns, touch, contacted, announced, record_contact,
  record_nats_presence, row_at, Heard, heard, HeartbeatResponse, Listener, response_of,
  answer_contact, receive_heartbeat,
}

-- The entry of a row after a write to the columns of the worker `uid`.
abbrev touched : String → Option String → (WorkerStatus → WorkerStatus) → Worker → Worker
touched uid runner change w =
    if w.uid =ₛ uid && is_member runner w then record w { status = change w.status } else w

row_at-update_columns :
    (u uid : String) (runner : Option String) (change : WorkerStatus → WorkerStatus)
    (rows : List WorkerRow)
    → row_at u (update_columns (is_touched uid runner) change rows)
      ≡ map (touched uid runner change) (row_at u rows)
unfolding row_at
row_at-update_columns u uid runner change [] = refl
row_at-update_columns u uid runner change (row ∷ rows) =
    ground (arith, row_at-update_columns u uid runner change rows)

row_at_uid : (u : String) (rows : List WorkerRow) (w : Worker) → row_at u rows ≡ some w → w.uid ≡ u
unfolding row_at
row_at_uid u [] w h = absurd (ground arith)
row_at_uid u (row ∷ rows) w h = ground (arith, row_at_uid u rows w, eq_iff row.entry.uid u)

touch-found :
    (fails : Bool) (u uid : String) (runner : Option String) (change : WorkerStatus → WorkerStatus)
    (rows : List WorkerRow)
    → (touch fails uid runner change rows).1 ≡ some true
    → row_at u (touch fails uid runner change rows).0
      ≡ map (touched uid runner change) (row_at u rows)
unfolding touch
touch-found fails u uid runner change rows h =
    ground (arith, row_at-update_columns u uid runner change rows)

touch-row :
    (u uid : String) (runner : Option String) (change : WorkerStatus → WorkerStatus)
    (rows : List WorkerRow)
    → uid ≢ ""
    → row_at u (touch false uid runner change rows).0
      ≡ map (touched uid runner change) (row_at u rows)
unfolding touch
touch-row u uid runner change rows named =
    ground (arith, eq_iff uid "", row_at-update_columns u uid runner change rows)

map-touched :
    (u uid : String) (change : WorkerStatus → WorkerStatus) (w : Worker) (row : Option Worker)
    → w.uid ≡ uid
    → (row_is : (x : Worker) → row ≡ some x → x.uid ≡ u) → (u ≡ uid → row ≡ some w)
    → map (touched uid none change) row
      ≡ (if u =ₛ uid then some (record w { status = change w.status }) else row)
map-touched u uid change w none own is_own there = ground (arith, eq_iff u uid)
map-touched u uid change w (some x) own is_own there =
    let named = is_own x refl in ground (arith, eq_iff u uid, eq_iff x.uid uid)

answer_contact-heard :
    (found : Option Bool) (answer : Heard) (response : HeartbeatResponse)
    → answer_contact found answer ≡ heard response
    → (found ≡ some true) × (answer ≡ heard response)
answer_contact-heard none answer response h = absurd (ground arith)
answer_contact-heard (some false) answer response h = absurd (ground arith)
answer_contact-heard (some true) answer response h = (refl, h)

heard_inv :
    (l : Listener) (read_fails write_fails : Bool) (rows : List WorkerRow) (session : String)
    (leaving : Bool) (now : Time) (response : HeartbeatResponse)
    → l.has_presence ≡ true
    → (receive_heartbeat l read_fails write_fails rows session leaving now).1 ≡ heard response
    → (uid : String) × (w : Worker) × (l.worker_of session ≡ some uid)
      × (row_at uid rows ≡ some w)
      × ((receive_heartbeat l read_fails write_fails rows session leaving now).0
          ≡ (record_contact write_fails rows uid now heartbeat leaving).0)
      × ((record_contact write_fails rows uid now heartbeat leaving).1 ≡ some true)
      × (response ≡ record { interval = l.heartbeat_interval; is_paused = w.status.is_paused })
unfolding receive_heartbeat
heard_inv l read_fails write_fails rows session leaving now response presence h =
    elim (Option-cases (l.worker_of session)) [
      | inl e ↦ absurd (ground (arith, e))
      | inr (uid, e) ↦ elim (Bool-cases read_fails) [
        | inl down ↦ absurd (ground (arith, e, down))
        | inr up ↦ elim (Option-cases (row_at uid rows)) [
          | inl m ↦ absurd (ground (arith, e, up, m))
          | inr (w, m) ↦
              let at = record_contact write_fails rows uid now heartbeat leaving in
              let run : receive_heartbeat l read_fails write_fails rows session leaving now
                  ≡ (at.0, answer_contact at.1 (response_of l w)) =
                ground (arith, e, up, m) in
              let (found, answer) =
                answer_contact-heard at.1 (response_of l w) response
                  (ap (λ x. x.1) (sym run) ∙ h) in
              (uid, w, e, m, ap (λ x. x.0) run, found, ground (arith, answer))
        ]
      ]
    ]

-- A heartbeat that is heard has the session of a worker that is registered. It is answered with the
-- interval of the server and whether that worker is paused, and it changes no worker but that one,
-- of which it changes only when and how it was last in contact, and whether it has left.
pub receive_heartbeat-IsHeard :
    (l : Listener) (read_fails write_fails : Bool) (rows : List WorkerRow) (session other : String)
    (leaving : Bool) (now : Time) (response : HeartbeatResponse)
    → l.has_presence ≡ true
    → (receive_heartbeat l read_fails write_fails rows session leaving now).1 ≡ heard response
    → (uid : String) × (w : Worker) × (l.worker_of session ≡ some uid)
      × (row_at uid rows ≡ some w)
      × (response ≡ record { interval = l.heartbeat_interval; is_paused = w.status.is_paused })
      × (row_at other (receive_heartbeat l read_fails write_fails rows session leaving now).0 ≡ (
          if other =ₛ uid
          then some (record w { status = contacted now heartbeat leaving w.status })
          else row_at other rows))
unfolding record_contact
receive_heartbeat-IsHeard l read_fails write_fails rows session other leaving now response presence
      h =
    let (uid, w, session_is, there, same_state, found, answer) =
      heard_inv l read_fails write_fails rows session leaving now response presence h in
    (
      uid,
      w,
      session_is,
      there,
      answer,
      ap (row_at other) same_state
          ∙ touch-found write_fails other uid none (contacted now heartbeat leaving) rows found
          ∙ map-touched other uid (contacted now heartbeat leaving) w (row_at other rows)
              (row_at_uid uid rows w there) (row_at_uid other rows)
              (λ e. ap (λ u. row_at u rows) e ∙ there),
    )

heard_condition :
    (s : WorkerStatus) (seen contact now after : ℕ) (leaving : Bool)
    → seen ≢ 0
    → seen ≤ contact
    → contact ≤ now
    → now ≤ seen + after
    → 0 < after
    → after < max_duration
    → (worker_presence_at
        (contacted contact heartbeat leaving (announced seen s))
        now
        (pos after)).condition
      ≡ (if leaving then WorkerCondition.offline else WorkerCondition.online)
unfolding worker_presence_at presence_of condition_of downgrade_to_offline
heard_condition s seen contact now after leaving a b c d e f = ground arith

record_nats_presence-row :
    (rows : List WorkerRow) (w : Worker) (seen : Time)
    → w.uid ≢ ""
    → w.runner_id ≢ ""
    → row_at w.uid rows ≡ some w
    → row_at w.uid (record_nats_presence false rows w.uid w.runner_id seen).0
      ≡ some (record w { status = announced seen w.status })
unfolding record_nats_presence
record_nats_presence-row rows w seen named member row = ground (
  arith,
  eq_iff w.runner_id "",
  eq_refl w.uid,
  eq_refl w.runner_id,
  touch-row w.uid w.uid (some w.runner_id) (announced seen) rows named,
)

record_contact-row :
    (rows : List WorkerRow) (w : Worker) (at : Time) (leaving : Bool)
    → w.uid ≢ ""
    → row_at w.uid rows ≡ some w
    → row_at w.uid (record_contact false rows w.uid at heartbeat leaving).0
      ≡ some (record w { status = contacted at heartbeat leaving w.status })
unfolding record_contact
record_contact-row rows w at leaving named row =
    ground
      (arith, eq_refl w.uid, touch-row w.uid w.uid none (contacted at heartbeat leaving) rows named)

-- A registered worker of a runner, heard on the queue of that runner and then, not before, by the
-- API server, shows as online while both signals are fresh, unless the contact was its farewell:
-- then it shows as offline at once. The two writes change its liveness only, and not its pause.
pub record_contact-online :
    (rows : List WorkerRow) (w : Worker) (seen contact now after : ℕ) (leaving : Bool)
    → w.uid ≢ ""
    → w.runner_id ≢ ""
    → row_at w.uid rows ≡ some w
    → seen ≢ 0
    → seen ≤ contact
    → contact ≤ now
    → now ≤ seen + after
    → 0 < after
    → after < max_duration
    → (status : WorkerStatus) × (row_at w.uid
          (record_contact false
            (record_nats_presence false rows w.uid w.runner_id seen).0
            w.uid
            contact
            heartbeat
            leaving).0
        ≡ some (record w { status = status }))
      × (status.is_paused ≡ w.status.is_paused)
      × ((worker_presence_at status now (pos after)).condition
          ≡ (if leaving then WorkerCondition.offline else WorkerCondition.online))
record_contact-online rows w seen contact now after leaving named member row a b c d e f = (
  contacted contact heartbeat leaving (announced seen w.status),
  record_contact-row _ (record w { status = announced seen w.status }) contact leaving named
      (record_nats_presence-row rows w seen named member row),
  refl,
  heard_condition w.status seen contact now after leaving a b c d e f,
)
