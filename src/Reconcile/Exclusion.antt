-- ===== src/Reconcile/Exclusion.antt =====
-- One reconciler scans at a time.
use urth.Prelude.{
  String, true, false, ◌≡◌, ◌≢◌, ◌<◌, ◌+◌, none, some, Time, Duration, ℕ, pos, eq_iff, arith,
}
use urth.Reconcile.{LeaseRow, take_over, create_lease, acquire_scan_lease, release_scan_lease}

-- The statements of the reconcilers other than `a`, before the time `until`, in any order.
pub data OtherSteps (a : String) (until : Time) (from_ : LeaseRow) : LeaseRow → Type 0 where
  no_step : OtherSteps a until from_ from_
  takes_over :
      (row : LeaseRow) (b : String) (lease : Duration) (now : Time)
      → b ≢ a
      → now < until
      → OtherSteps a until from_ row
      → OtherSteps a until from_ (take_over b lease now row).0
  creates :
      (row : LeaseRow) (b : String) (lease : Duration) (now : Time)
      → b ≢ a
      → now < until
      → OtherSteps a until from_ row
      → OtherSteps a until from_ (create_lease b lease now row).0
  releases :
      (row : LeaseRow) (b : String) (now : Time)
      → b ≢ a
      → OtherSteps a until from_ row
      → OtherSteps a until from_ (release_scan_lease b now row)

-- The row is leased to `a` until `until`.
abbrev pub IsHeldBy : String → Time → LeaseRow → Type 0
IsHeldBy a until none = ⊥
IsHeldBy a until (some row) = (row.holder ≡ a) × (row.expires_at ≡ until)

refuses :
    (a b : String) (until now : Time) (lease : Duration) (row : LeaseRow)
    → b ≢ a
    → now < until
    → IsHeldBy a until row
    → ((take_over b lease now row).1 ≡ false)
      × ((create_lease b lease now row).1 ≡ false)
      × IsHeldBy a until (take_over b lease now row).0
      × IsHeldBy a until (create_lease b lease now row).0
unfolding take_over create_lease
refuses a b until now lease none other early h = absurd h
refuses a b until now lease (some row) other early h = ground (arith, eq_iff row.holder b)

release-IsHeldBy :
    (a b : String) (until now : Time) (row : LeaseRow)
    → b ≢ a
    → IsHeldBy a until row
    → IsHeldBy a until (release_scan_lease b now row)
unfolding release_scan_lease
release-IsHeldBy a b until now none other h = absurd h
release-IsHeldBy a b until now (some row) other h = ground (arith, eq_iff row.holder b)

OtherSteps-IsHeldBy :
    (a : String) (until : Time) (row later : LeaseRow)
    → IsHeldBy a until row
    → OtherSteps a until row later
    → IsHeldBy a until later
OtherSteps-IsHeldBy a until row later h no_step = h
OtherSteps-IsHeldBy a until row later h (takes_over r b lease now other early steps) =
    (refuses a b until now lease r other early (OtherSteps-IsHeldBy a until row r h steps)).2
OtherSteps-IsHeldBy a until row later h (creates r b lease now other early steps) =
    (refuses a b until now lease r other early (OtherSteps-IsHeldBy a until row r h steps)).3
OtherSteps-IsHeldBy a until row later h (releases r b now other steps) =
    release-IsHeldBy a b until now r other (OtherSteps-IsHeldBy a until row r h steps)

acquire_scan_lease-IsHeldBy :
    (between : LeaseRow → LeaseRow) (a : String) (lease : ℕ) (now : Time) (row : LeaseRow)
    → (acquire_scan_lease between a (pos lease) now row).1 ≡ true
    → IsHeldBy a (now + lease) (acquire_scan_lease between a (pos lease) now row).0
unfolding acquire_scan_lease take_over create_lease
acquire_scan_lease-IsHeldBy between a lease now row h = ground arith

-- After a reconciler has acquired the lease of the scan, whatever statements the others run
-- before its end, neither the update nor the insert of another one before its end takes the lease.
pub acquire_scan_lease-exclusive :
    (between : LeaseRow → LeaseRow) (a b : String) (lease : ℕ) (lease' : Duration) (now now' : Time)
    (row later : LeaseRow)
    → b ≢ a
    → now' < now + lease
    → (acquire_scan_lease between a (pos lease) now row).1 ≡ true
    → OtherSteps a (now + lease) (acquire_scan_lease between a (pos lease) now row).0 later
    → ((take_over b lease' now' later).1 ≡ false) × ((create_lease b lease' now' later).1 ≡ false)
acquire_scan_lease-exclusive between a b lease lease' now now' row later other early acquired
      steps =
    let held =
      OtherSteps-IsHeldBy a (now + lease) _ later
        (acquire_scan_lease-IsHeldBy between a lease now row acquired) steps in
    let r = refuses a b (now + lease) now' lease' later other early held in (r.0, r.1)
