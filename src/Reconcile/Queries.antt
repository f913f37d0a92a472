-- ===== src/Reconcile/Queries.antt =====
-- The questions of the reconciler about whole tables. A query names the columns that it compares,
-- and its rows are those of the table that its conditions select, in its order, up to its limit.
use Prim.Native.Nat.{Ordering}
use Prim.Native.String.{compare}
use urth.Prelude.{sort_stable}
use urth.Prelude.{
  ℕ, String, Bool, true, false, not, ◌&&◌, ◌||◌, ◌≡◌, Option, none, some, List, [], ◌∷◌, map, All,
  take, where_, ltb, ◌==◌, ◌=ₛ◌, if◌then◌else◌, Time,
}
use urth.Types.{Result, Worker, WorkerStatus, Runner, is_terminal, is_running, is_pending}
use urth.Store.{Database, Write}
use urth.Presence.{deref_time}
use urth.Outbox.{OutboxEntry, OutboxTable, is_null}

-- What the scan's queries range over, on a state of the database: the rows that are not deleted,
-- or nothing where the query fails. `any_result` also finds a deleted row, and tells it so.
pub record Scans (db : Database) : Type 0 where
  pub result_rows : db.State → Option (List Result)
  pub worker_rows : db.State → Option (List Worker)
  pub runner_rows : db.State → Option (List Runner)
  pub any_result : db.State → String → Option (Result × Bool)
  -- Whether a statement on the outbox fails, or the rest of the transaction that it ends.
  pub outbox_fails : db.State → OutboxTable → Bool
  -- `store.Delete`, guarded by the version.
  pub delete_worker : db.State → Worker → db.State × Write
  -- A query finds the rows that a read would find.
  pub result_rows_read :
      (s : db.State) (rows : List Result)
      → result_rows s ≡ some rows
      → All (λ r. db.result_row s r.uid ≡ some r) rows
  pub any_result_live :
      (s : db.State) (uid : String) (r : Result)
      → db.result_row s uid ≡ some r
      → any_result s uid ≡ some (r, false)
  -- Deleting a worker touches no result.
  pub delete_worker_result :
      (s : db.State) (w : Worker) (uid : String)
      → db.result_row (delete_worker s w).0 uid ≡ db.result_row s uid

abbrev pub created_before : Time → Option Time → Bool
created_before cutoff none = false
created_before cutoff (some t) = ltb t cutoff

-- The conditions of `ExpiredRuns`; a deadline that was never recorded is the zero time.
unfoldable pub is_overdue : Time → Result → Bool
is_overdue cutoff r = is_running r.status && (ltb 0 r.deadline && ltb r.deadline cutoff)

-- The conditions of the first query of `StalePendingRuns`.
unfoldable pub is_stuck : Time → Result → Bool
is_stuck cutoff r = is_pending r.status && created_before cutoff r.created_at

abbrev pub earlier_deadline : Result → Result → Bool
earlier_deadline a b = ltb a.deadline b.deadline

abbrev pub earlier_created : Result → Result → Bool
earlier_created a b = ltb (deref_time a.created_at) (deref_time b.created_at)

abbrev pub earlier_uid : Worker → Worker → Bool
earlier_uid a b = elim (compare a.uid b.uid) [ Ordering.lt ↦ true | _ ↦ false ]

-- `column IS NOT NULL`, and `COALESCE(column, zero) < cutoff`.
abbrev pub quiet_before : Time → Option Time → Bool
quiet_before cutoff none = ltb 0 cutoff
quiet_before cutoff (some t) = ltb t cutoff

-- The conditions of `SilentWorkers`.
unfoldable pub is_silent_row : Time → WorkerStatus → Bool
is_silent_row cutoff w =
    (not (is_null w.last_seen_time) || not (is_null w.nats_last_seen_time))
    && (quiet_before cutoff w.last_seen_time && quiet_before cutoff w.nats_last_seen_time)

pub record PendingRun : Type 0 where
  pub result : Result
  pub dispatch : Option OutboxEntry

-- The map from a run and its version to the entry that was written for them: a later row wins.
unfoldable pub dispatch_of : Result → List OutboxEntry → Option OutboxEntry
dispatch_of r [] = none
dispatch_of r (e ∷ es) = elim (dispatch_of r es) [
  | some d ↦ some d
  | none ↦ if e.result_uid =ₛ r.uid && e.result_version == r.version then some e else none
]

pub record StaleDispatch : Type 0 where
  pub entry : OutboxEntry
  pub delivered : Bool

-- The answer of the first query of `StalePendingRuns`.
abbrev pub stuck_runs : List Result → Time → ℕ → List Result
stuck_runs rows cutoff limit =
    take limit (sort_stable earlier_created (where_ (is_stuck cutoff) rows))

module _ (db : Database) (scans : Scans db) where
  open db use {State}
  open scans use {result_rows, worker_rows, any_result, outbox_fails}

  unfoldable pub expired_runs : State → Time → ℕ → Option (List Result)
  unfolding is_overdue
  expired_runs s cutoff limit = elim (result_rows s) [
    | none ↦ none
    | some rows ↦ some (take limit (sort_stable earlier_deadline (where_ (is_overdue cutoff) rows)))
  ]

  unfoldable pub stale_pending_runs : State → OutboxTable → Time → ℕ → Option (List PendingRun)
  unfolding is_stuck dispatch_of
  stale_pending_runs s table cutoff limit = elim (result_rows s) [
    | none ↦ none
    | some rows ↦ elim (stuck_runs rows cutoff limit) [
      | [] ↦ some []
      | run ∷ runs ↦
          if outbox_fails s table
          then none
          else some (map (λ r. record { result = r; dispatch = dispatch_of r table }) (run ∷ runs))
    ]
  ]

  unfoldable pub silent_workers : State → Time → ℕ → Option (List Worker)
  unfolding is_silent_row
  silent_workers s cutoff limit = elim (worker_rows s) [
    | none ↦ none
    | some rows ↦
        some
          (take limit (sort_stable earlier_uid (where_ (λ w. is_silent_row cutoff w.status) rows)))
  ]

  -- The run of an entry is gone, deleted or finished.
  unfoldable pub is_unwanted : State → OutboxEntry → Bool
  is_unwanted s e = elim (any_result s e.result_uid) [
    | none ↦ true
    | some (r, deleted) ↦ deleted || is_terminal r.status
  ]

  -- The run was claimed through this entry.
  unfoldable pub is_delivered : State → OutboxEntry → Bool
  is_delivered s e = elim (any_result s e.result_uid) [
    | none ↦ "" =ₛ e.event_uid
    | some (r, deleted) ↦ r.dispatch_id =ₛ e.event_uid
  ]

  unfoldable pub stale_dispatches : State → OutboxTable → ℕ → Option (List StaleDispatch)
  unfolding is_unwanted is_delivered
  stale_dispatches s table limit =
      if outbox_fails s table
      then none
      else some (
          map (λ e. record { entry = e; delivered = is_delivered s e })
            (take limit (
              sort_stable (λ a b. ltb a.id b.id)
                (where_ (λ e. is_null e.retired_at && is_unwanted s e) table))))
