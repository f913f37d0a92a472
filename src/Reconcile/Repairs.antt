-- ===== src/Reconcile/Repairs.antt =====
-- The repairs of the reconciler, as the store runs them: a repair fails, finds that there is
-- nothing to do any more, or is done. What fails in a transaction leaves no trace.
use urth.Prelude.{
  ℕ, suc, String, Bool, false, not, ◌&&◌, Option, none, some, [], ◌∷◌, ◌++◌, length, where_, ltb,
  leb, ◌==◌, ◌=ₛ◌, if◌then◌else◌, Time,
}
use urth.Types.{
  Result, Worker, expired, finished_timeout, is_terminal, status_text, run_status_text,
}
use urth.Labels.{label_result_job_state, label_result_status}
use urth.Store.{Database, failed_write, rejected, applied}
use urth.Outbox.{
  OutboxEntry, OutboxTable, is_null, update_where, new_dispatch_outbox_entry, truncate_reason,
}
use urth.Reconcile.Queries.{Scans}

pub data Repair : Type 0 where
  failed_repair not_needed repaired : Repair

-- The columns that `retired_at` goes with.
abbrev pub retired : Time → String → OutboxEntry → OutboxEntry
retired at reason e = record e {
  retired_at = some at;
  retired_reason = truncate_reason reason;
  updated_at = at;
}

abbrev pub unclaimed : OutboxEntry → OutboxEntry
unclaimed e = record e { claimed_by = ""; claim_expires_at = none }

-- The entries of a run that have not gone out yet and are not retired.
abbrev pub awaits_publication : String → OutboxEntry → Bool
awaits_publication uid e = e.result_uid =ₛ uid && (is_null e.published_at && is_null e.retired_at)

abbrev pub retire_unpublished : String → Time → String → OutboxTable → OutboxTable
retire_unpublished uid at reason table =
    update_where (awaits_publication uid) (retired at reason) table

abbrev pub has_event : String → OutboxEntry → Bool
has_event event e = e.event_uid =ₛ event

-- The number that the database gives to the next row.
abbrev pub next_id : OutboxTable → ℕ
next_id [] = 1
next_id (e ∷ es) = let rest = next_id es in if ltb e.id rest then rest else suc e.id

-- `expires_at IS NOT NULL AND expires_at <= now`.
abbrev pub has_lapsed : Option Time → Time → Bool
has_lapsed none now = false
has_lapsed (some t) now = leb t now

abbrev pub is_abandoned : Time → OutboxEntry → Bool
is_abandoned now e =
    is_null e.published_at
    && (is_null e.retired_at && (not (e.claimed_by =ₛ "") && has_lapsed e.claim_expires_at now))

module _ (db : Database) (scans : Scans db) where
  open db use {State, update_result, merge_labels}
  open scans use {outbox_fails, delete_worker}

  -- `expireResult`.
  unfoldable pub expire_result : Result → Time → Result
  expire_result r at = record r {
    status = expired;
    result = finished_timeout;
    time_ended = some at;
    labels = merge_labels r.labels (
        (label_result_job_state, status_text expired)
        ∷ (label_result_status, run_status_text finished_timeout)
        ∷ []);
  }

  unfoldable pub expire_run :
      State → OutboxTable → Result → Time → String → State × OutboxTable × Repair
  unfolding expire_result truncate_reason
  expire_run s table r at reason =
      if is_terminal r.status
      then (s, table, not_needed)
      else (let written = update_result s (expire_result r at) r.version in
          elim written.1 [
            | failed_write ↦ (s, table, failed_repair)
            | rejected ↦ (s, table, not_needed)
            | applied v ↦
                if outbox_fails written.0 table
                then (s, table, failed_repair)
                else (written.0, retire_unpublished r.uid at reason table, repaired)
          ])

  -- An entry of the same event stands in the way of the new one.
  unfoldable pub enqueue_dispatch : State → OutboxTable → Result → Time → OutboxTable × Repair
  unfolding new_dispatch_outbox_entry
  enqueue_dispatch s table r now =
      let entry = new_dispatch_outbox_entry r now in
      if outbox_fails s table
      then (table, failed_repair)
      else (if ltb 0 (length (where_ (has_event entry.event_uid) table))
          then (table, not_needed)
          else (
            table ++ (record entry { id = next_id table; created_at = now; updated_at = now } ∷ []),
            repaired,
          ))

  unfoldable pub retire_dispatch : State → OutboxTable → ℕ → Time → String → OutboxTable × Repair
  unfolding truncate_reason
  retire_dispatch s table id at reason = if outbox_fails s table then (table, failed_repair) else (
    update_where (λ e. e.id == id && is_null e.retired_at) (λ e. unclaimed (retired at reason e))
        table,
    repaired,
  )

  -- With the number of the entries that it released.
  unfoldable pub release_abandoned_dispatches :
      State → OutboxTable → Time → Option (OutboxTable × ℕ)
  release_abandoned_dispatches s table now =
      if outbox_fails s table
      then none
      else some (
        update_where (is_abandoned now) (λ e. record (unclaimed e) { updated_at = now }) table,
        length (where_ (is_abandoned now) table),
      )

  unfoldable pub drop_worker : State → Worker → State × Repair
  drop_worker s w =
      let deleted = delete_worker s w in
      elim deleted.1 [
        | failed_write ↦ (deleted.0, failed_repair)
        | rejected ↦ (deleted.0, not_needed)
        | applied v ↦ (deleted.0, repaired)
      ]
