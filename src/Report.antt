-- ===== src/Report.antt =====
-- The report of a finished run: `UpdateStatus` and `validateUpdateRequest` of pkg/urth/service.go.
pub mod Completion
use urth.Prelude.{
  ℕ, String, Bool, true, false, Option, none, some, [], ◌∷◌, ◌=ₛ◌, ◌==◌, if◌then◌else◌, Time,
}
use urth.Types.{Result, RunStatus, completed, status_text, run_status_text}
use urth.Labels.{label_result_job_state, label_result_status}
use urth.Store.{Database, failed, missing, found, failed_write, rejected, applied}

pub data ReportAnswer : Type 0 where
  not_found version_conflict unauthorized store_error : ReportAnswer
  updated : String → ℕ → ReportAnswer

-- The token is good, and its subject is the run. The parser, with the service's keys, is given:
-- it answers with the subject of a token that it accepts.
unfoldable pub validate_update_request : (String → Option String) → Result → String → Bool
validate_update_request parse_token entry token = elim (parse_token token) [
  | none ↦ false
  | some subject ↦ subject =ₛ entry.uid
]

module _ (db : Database) (parse_token : String → Option String) where
  open db use {State, get_result, update_result, merge_labels}

  -- The entry that a report writes.
  abbrev pub reported_entry : Result → RunStatus → Time → Result
  reported_entry entry result now = record entry {
    time_ended = some now;
    status = completed;
    result = result;
    labels = merge_labels entry.labels (
        (label_result_job_state, status_text completed)
        ∷ (label_result_status, run_status_text result)
        ∷ []);
  }

  unfoldable pub write_report : State → Result → RunStatus → Time → State × ReportAnswer
  write_report s entry result now =
      let written = update_result s (reported_entry entry result now) entry.version in
      elim written.1 [
        | failed_write ↦ (written.0, store_error)
        | rejected ↦ (written.0, version_conflict)
        | applied v ↦ (written.0, updated entry.uid v)
      ]

  -- A read at a version finds the row only at that version.
  unfoldable pub update_status :
      State → String → ℕ → String → RunStatus → Time → State × ReportAnswer
  unfolding validate_update_request write_report
  update_status s uid version token result now = elim (get_result s uid) [
    | failed ↦ (s, not_found)
    | missing ↦ (s, version_conflict)
    | found entry ↦
        if entry.version == version
        then (if validate_update_request parse_token entry token
            then write_report s entry result now
            else (s, unauthorized))
        else (s, version_conflict)
  ]
