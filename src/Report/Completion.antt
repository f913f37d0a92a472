-- ===== src/Report/Completion.antt =====
-- What an accepted report leaves of its run.
use urth.Prelude.{
  ℕ, suc, String, true, ◌≡◌, refl, sym, ap, ◌∙◌, inl, inr, Option, some, ◌==◌, eq_iff, arith,
  Bool-cases, Option-cases, Time,
}
use mathlib.Core.Option.{some-injective}
use urth.Types.{Result, RunStatus, completed}
use urth.Store.{Database, found, applied, stored, over_run_status}
use urth.Claim.Checks.{Fetch-cases}
use urth.Report.{updated, validate_update_request, reported_entry, write_report, update_status}

validate_update_request-subject :
    (parse_token : String → Option String) (entry : Result) (token : String)
    → validate_update_request parse_token entry token ≡ true
    → parse_token token ≡ some entry.uid
unfolding validate_update_request
validate_update_request-subject parse_token entry token h =
    elim (Option-cases (parse_token token)) [
      | inl e ↦ absurd (ground arith)
      | inr (subject, e) ↦ ground (arith, eq_iff subject entry.uid)
    ]

module _ (db : Database) (parse_token : String → Option String) where
  open db use {
    State, result_row, get_result, get_result_reads, result_row_uid, update_result,
    update_result_applied,
  }

  write_report-updated :
      (s : State) (entry : Result) (result : RunStatus) (now : Time) (uid : String) (v : ℕ)
      → (write_report db parse_token s entry result now).1 ≡ updated uid v
      → (uid ≡ entry.uid)
        × ((update_result s (reported_entry db parse_token entry result now) entry.version).1
            ≡ applied v)
        × ((write_report db parse_token s entry result now).0
            ≡ (update_result s (reported_entry db parse_token entry result now) entry.version).0)
  unfolding write_report
  write_report-updated s entry result now uid v h = ground arith

  update_status-updated :
      (s : State) (uid : String) (version : ℕ) (token : String) (result : RunStatus) (now : Time)
      (named : String) (v : ℕ)
      → (update_status db parse_token s uid version token result now).1 ≡ updated named v
      → (entry : Result) × (get_result s uid ≡ found entry)
        × (entry.version ≡ version)
        × (validate_update_request parse_token entry token ≡ true)
        × (update_status db parse_token s uid version token result now
            ≡ write_report db parse_token s entry result now)
  unfolding update_status
  update_status-updated s uid version token result now named v h =
      elim (Fetch-cases (get_result s uid)) [
        | inl e ↦ absurd (ground arith)
        | inr (inl e) ↦ absurd (ground arith)
        | inr (inr (entry, e)) ↦ elim (Bool-cases (entry.version == version)) [
          | inr other ↦ absurd (ground arith)
          | inl same ↦ elim (Bool-cases (validate_update_request parse_token entry token)) [
            | inr bad ↦ absurd (ground arith)
            | inl good ↦
                (entry, e, ground arith, good, rw (e, update_status) (rw same (rw good refl)))
          ]
        ]
      ]

  -- What an accepted report rests on, and what it leaves.
  pub record IsReported (s s' : State) (uid : String) (version : ℕ) (token : String)
      (result : RunStatus) (now : Time) (named : String) (v : ℕ) : Type 0 where
    pub entry : Result
    pub row : result_row s uid ≡ some entry
    pub current : entry.version ≡ version
    pub own_token : parse_token token ≡ some uid
    pub names_run : named ≡ uid
    pub new_version : v ≡ suc version
    pub after : Result
    pub written : result_row s' uid ≡ some after
    pub is_completed : after.status ≡ completed
    pub has_ended : after.time_ended ≡ some now
    pub verdict : after.result ≡ over_run_status entry.result result

  -- A report is accepted only for a run at the reported version, with a token of that run; it
  -- leaves the run completed at the next version, ended now, with the reported verdict, or the former one
  -- where none is reported. The former state of the run plays no part.
  pub update_status-IsReported :
      (s : State) (uid : String) (version : ℕ) (token : String) (result : RunStatus) (now : Time)
      (named : String) (v : ℕ)
      → (update_status db parse_token s uid version token result now).1 ≡ updated named v
      → IsReported s
          (update_status db parse_token s uid version token result now).0
          uid
          version
          token
          result
          now
          named
          v
  unfolding stored
  update_status-IsReported s uid version token result now named v h =
      let (entry, e, current, good, ran) =
        update_status-updated s uid version token result now named v h in
      let row : result_row s uid ≡ some entry = rw e at (get_result_reads s uid) in
      let own = result_row_uid s uid entry row in
      let (names, done, left) =
        write_report-updated s entry result now named v (ap (λ w. w.1) (sym ran) ∙ h) in
      let (met, at, _, bump, kept) =
        update_result_applied s (reported_entry db parse_token entry result now) entry.version v
          done in
      let same : met ≡ entry = some-injective _ _ (sym at ∙ ap (result_row s) own ∙ row) in
      record {
        entry = entry;
        row = row;
        current = current;
        own_token =
            validate_update_request-subject parse_token entry token good ∙ ap (λ u. some u) own;
        names_run = names ∙ own;
        new_version = bump ∙ ap (λ n. suc n) current;
        after = stored met (reported_entry db parse_token entry result now) (suc entry.version);
        written =
            ap (λ w. result_row w.0 uid) ran
            ∙ ap (λ t. result_row t uid) left
            ∙ ap (result_row _) (sym own)
            ∙ kept;
        is_completed = refl;
        has_ended = refl;
        verdict = ap (λ m. over_run_status m.result result) same;
      }
