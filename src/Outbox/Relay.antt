-- ===== src/Outbox/Relay.antt =====
-- One pass of the relay: `RunOnce`, `publish`, `recordFailure`, `backoffFor`.
use urth.Prelude.{
  ℕ, zero, suc, ◌+◌, ◌-◌, ◌*◌, String, Bool, true, false, ◌&&◌, List, [], ◌∷◌, ltb, ◌==◌,
  if◌then◌else◌, Time, Duration, hours,
}
use urth.Outbox.Table.{
  OutboxEntry, OutboxTable, dispatch_outbox_entry_version, claim_entries, mark_published,
  mark_failed,
}

-- What a relay is assembled with; the times are in nanoseconds.
pub record DispatchRelay : Type 0 where
  pub relay_id : String
  pub batch_size : ℕ
  pub lease : Duration
  pub retry_backoff : ℕ
  pub max_backoff : ℕ
  pub has_sink : Bool

-- What the transport answers: the sequence of the accepted message, or an error, whether it is an
-- `ErrPermanentDispatch`, and its text.
pub data PublishReply : Type 0 where
  accepted : ℕ → PublishReply
  not_accepted : Bool → String → PublishReply

-- The table, and the entries that were handed to the sink for undeliverable dispatches.
pub record RelayState : Type 0 where
  pub table : OutboxTable
  pub undeliverable : List OutboxEntry

abbrev pub permanent_dispatch_backoff : ℕ
permanent_dispatch_backoff = hours 1

-- The loop of `backoffFor`, of which `left` rounds are left. Delays are far below the 2^62
-- nanoseconds from which doubling would overflow.
unfoldable pub double_until : ℕ → ℕ → ℕ → ℕ
double_until maximum zero backoff = backoff
double_until maximum (suc left) backoff =
    let rest = double_until maximum left (backoff * 2) in
    if ltb backoff maximum then rest else backoff

unfoldable pub backoff_for : DispatchRelay → OutboxEntry → Bool → ℕ
unfolding double_until
backoff_for relay entry permanent =
    if permanent
    then permanent_dispatch_backoff
    else (let backoff = double_until relay.max_backoff (entry.attempts - 1) relay.retry_backoff in
        if ltb relay.max_backoff backoff then relay.max_backoff else backoff)

-- `recordFailure`.
unfoldable pub record_failure :
    DispatchRelay → Time → OutboxEntry → Bool → String → RelayState → RelayState
unfolding backoff_for mark_failed
record_failure relay now entry permanent text s = record {
  table = (mark_failed entry.id text (now + backoff_for relay entry permanent) now s.table).0;
  undeliverable = if relay.has_sink && permanent then entry ∷ s.undeliverable else s.undeliverable;
}

abbrev pub disappeared : String
disappeared = "disappeared before it could be marked published"

abbrev pub foreign_schema : String
foreign_schema = "outbox schema"

-- `publish`: the state after it, and whether it succeeded. The transport is given.
unfoldable pub publish :
    DispatchRelay
    → (OutboxEntry → PublishReply)
    → Time
    → OutboxEntry
    → RelayState
    → RelayState × Bool
unfolding record_failure mark_published
publish relay transport now entry s =
    if entry.schema_version == dispatch_outbox_entry_version
    then elim (transport entry) [
      | not_accepted permanent text ↦ (record_failure relay now entry permanent text s, false)
      | accepted sequence ↦
          let marked = mark_published entry.id now sequence s.table in
          if marked.1 then (record s { table = marked.0 }, true) else (
            record_failure relay now entry true disappeared (record s { table = marked.0 }),
            false,
          )
    ]
    else (record_failure relay now entry true foreign_schema s, false)

-- The loop of `RunOnce` over the claimed entries, with the number of the published ones.
unfoldable pub publish_all :
    DispatchRelay
    → (OutboxEntry → PublishReply)
    → Time
    → List OutboxEntry
    → RelayState
    → RelayState × ℕ
unfolding publish
publish_all relay transport now [] s = (s, 0)
publish_all relay transport now (e ∷ es) s =
    let (s', done) = publish relay transport now e s in
    let (s'', count) = publish_all relay transport now es s' in
    (s'', (if done then 1 else 0) + count)

-- `RunOnce`, with one reading of the clock.
unfoldable pub run_once :
    DispatchRelay → (OutboxEntry → PublishReply) → Time → RelayState → RelayState × ℕ
unfolding claim_entries publish_all
run_once relay transport now s =
    let (table, entries) = claim_entries relay.relay_id relay.batch_size relay.lease now s.table in
    publish_all relay transport now entries (record s { table = table })
