-- ===== src/Tests/Reports.antt =====
-- A worker reports the run of the small fleet, which the reconciler has expired.
use urth.Prelude.{false, refl, some}
use urth.Types.{Result, expired, finished_success}
use urth.Store.Memory.{memory, result_at, read, update, write}
use urth.Report.{update_status, validate_update_request, write_report}
use urth.Report.Completion.{IsReported, update_status-IsReported}
use urth.Tests.Fleet.{tables, held}

abbrev lapsed : Result
lapsed = record held { status = expired; version = 9 }

update_status-IsReported_example :
    IsReported
      (memory false)
      (λ token. some token)
      (tables lapsed)
      (update_status
        (memory false)
        (λ token. some token)
        (tables lapsed)
        "u-1"
        9
        "u-1"
        finished_success
        2000).0
      "u-1"
      9
      "u-1"
      finished_success
      2000
      "u-1"
      10
unfolding update_status validate_update_request write_report result_at read update write
update_status-IsReported_example =
    update_status-IsReported (memory false) (λ token. some token) (tables lapsed) "u-1" 9 "u-1"
      finished_success 2000 "u-1" 10 refl
