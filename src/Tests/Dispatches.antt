-- ===== src/Tests/Dispatches.antt =====
-- Two entries of the outbox, and relays that reach for them.
use urth.Prelude.{refl, eq_iff, ℕ, Bool, true, false, ◌≡◌, none, [], ◌∷◌, All, pos, arith}
use urth.Reconcile.{LeaseRow, take_over, create_lease, acquire_scan_lease}
use urth.Reconcile.Exclusion.{acquire_scan_lease-exclusive, no_step, takes_over}
use urth.Outbox.{
  OutboxEntry, OutboxTable, claim_entries, mark_published, mark_failed, is_id_of, has_id, is_due,
  DispatchRelay, accepted, RelayState, publish,
}
use urth.Outbox.Leases.{claim_entries-exclusive, LeaseStep, LeaseSteps}
use urth.Outbox.Publication.{mark_published-final, no_write, and_then, claims, fails}

abbrev entry : ℕ → OutboxEntry
entry id = record {
  id = id;
  schema_version = 1;
  event_uid = "u-1.7";
  result_uid = "u-1";
  result_version = 7;
  scenario_name = "home-page";
  runner_uid = "r-1";
  created_at = 100;
  updated_at = 100;
  published_at = none;
  published_seq = 0;
  retired_at = none;
  retired_reason = "";
  not_before = 100;
  attempts = 4;
  last_error = "";
  claimed_by = "";
  claim_expires_at = none;
}

abbrev outbox : OutboxTable
outbox = entry 1 ∷ entry 2 ∷ []

abbrev relay : DispatchRelay
relay = record {
  relay_id = "relay-1";
  batch_size = 1;
  lease = pos 30;
  retry_backoff = 1000000000;
  max_backoff = 60000000000;
  has_sink = true;
}

-- The first relay holds the first entry while another claims the second and fails to publish it.
abbrev meanwhile : OutboxTable
meanwhile =
    (mark_failed 2 "lost" 0 212
      (claim_entries "relay-2" 9 (pos 5) 210 (claim_entries "relay-1" 1 (pos 30) 200 outbox).0).0).0

claim_entries-exclusive_example :
    is_id_of 1 (claim_entries "relay-3" 9 (pos 30) 220 meanwhile).1 ≡ false
unfolding claim_entries is_due
claim_entries-exclusive_example =
    claim_entries-exclusive "relay-1" "relay-3" 1 9 30 (pos 30) 200 220 outbox meanwhile 1 refl
      (LeaseSteps.and_then _ _
        (LeaseSteps.and_then _ _ LeaseSteps.no_write (
          LeaseStep.claims "relay-2" 9 (pos 5) 210 (claim_entries "relay-1" 1 (pos 30) 200 outbox).0
            (omega arith)))
        (LeaseStep.fails 2 "lost" 0 212
          (claim_entries "relay-2" 9 (pos 5) 210
            (claim_entries "relay-1" 1 (pos 30) 200 outbox).0).0
          (ground arith)))
      (omega arith)

-- Its failure ends the lease: another relay is given the entry before the end.
given_on :
    is_id_of 1
      (claim_entries "relay-3" 9
        (pos 30)
        220
        (mark_failed 1 "lost" 0 212 (claim_entries "relay-1" 1 (pos 30) 200 outbox).0).0).1
    ≡ true
unfolding claim_entries is_due mark_failed
given_on = refl

mark_published-final_example :
    All
      (λ e. has_id 1 e ≡ false)
      (claim_entries "relay-2" 9
        (pos 30)
        900
        (mark_failed 1 "lost" 0 300
          (claim_entries "relay-2" 9 (pos 30) 250 (mark_published 1 200 5 outbox).0).0).0).1
mark_published-final_example = mark_published-final 1 200 5 outbox _ "relay-2" 9 (pos 30) 900 (
    and_then _ _
      (and_then _ _ no_write (claims "relay-2" 9 (pos 30) 250 (mark_published 1 200 5 outbox).0))
      (fails 1 "lost" 0 300
        (claim_entries "relay-2" 9 (pos 30) 250 (mark_published 1 200 5 outbox).0).0))

abbrev before : RelayState
before = record { table = outbox; undeliverable = [] }

abbrev attempt : RelayState × Bool
attempt = publish relay (λ e. accepted 5) 200 (entry 1) before

abbrev leased_to_first : LeaseRow
leased_to_first = (acquire_scan_lease (λ r. r) "first" (pos 60) 100 none).0

-- The first scan of a deployment, while a second reconciler tries twice.
acquire_scan_lease-exclusive_example :
    ((take_over "second" (pos 60) 150 (take_over "second" (pos 60) 120 leased_to_first).0).1
      ≡ false)
    × ((create_lease "second" (pos 60) 150 (take_over "second" (pos 60) 120 leased_to_first).0).1
        ≡ false)
unfolding acquire_scan_lease take_over create_lease
acquire_scan_lease-exclusive_example =
    acquire_scan_lease-exclusive (λ r. r) "first" "second" 60 (pos 60) 100 150 none _
      (ground (arith, eq_iff "second" "first")) (omega arith) refl
      (takes_over leased_to_first "second" (pos 60) 120 (ground (arith, eq_iff "second" "first"))
        (omega arith) no_step)
