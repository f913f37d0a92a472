-- ===== src/Reconcile/ScanLease.antt =====
-- `AcquireScanLease` and `ReleaseScanLease`, statement by statement: the table `ReconcileLease` has
-- at most one row of the name of the scan, and the database applies each statement atomically.
use urth.Prelude.{
  String, Bool, true, false, ◌||◌, Option, none, some, leb, ◌=ₛ◌, if◌then◌else◌, Time, Duration,
  add_time,
}

pub record ReconcileLease : Type 0 where
  pub holder : String
  pub expires_at : Time
  pub updated_at : Time

abbrev pub LeaseRow : Type 0
LeaseRow = Option ReconcileLease

abbrev pub lease_of : String → Duration → Time → ReconcileLease
lease_of holder lease now = record {
  holder = holder;
  expires_at = add_time now lease;
  updated_at = now;
}

-- The conditional update, and whether it took the row.
unfoldable pub take_over : String → Duration → Time → LeaseRow → LeaseRow × Bool
take_over holder lease now none = (none, false)
take_over holder lease now (some row) =
    if leb row.expires_at now || row.holder =ₛ holder
    then (some (lease_of holder lease now), true)
    else (some row, false)

-- The insert that does nothing on a conflict, and whether it created the row.
unfoldable pub create_lease : String → Duration → Time → LeaseRow → LeaseRow × Bool
create_lease holder lease now none = (some (lease_of holder lease now), true)
create_lease holder lease now (some row) = (some row, false)

-- `between` is what other reconcilers do to the row between the two statements.
unfoldable pub acquire_scan_lease :
    (LeaseRow → LeaseRow) → String → Duration → Time → LeaseRow → LeaseRow × Bool
unfolding take_over create_lease
acquire_scan_lease between holder lease now row =
    let taken = take_over holder lease now row in
    if taken.1 then (taken.0, true) else create_lease holder lease now (between taken.0)

unfoldable pub release_scan_lease : String → Time → LeaseRow → LeaseRow
release_scan_lease holder now none = none
release_scan_lease holder now (some row) =
    if row.holder =ₛ holder
    then some (record row { expires_at = now; updated_at = now })
    else some row
