-- ===== src/Outbox/Entry.antt =====
-- A new entry of the outbox: `DispatchEventUID` and `NewDispatchOutboxEntry`, and the truncation
-- of texts that are stored for operators.
use Prim.Native.Char.{Char}
use Prim.Native.String.{◌++◌, len, slice}
use urth.Prelude.{ℕ, zero, suc, ◌/◌, ◌%◌, String, none, ltb, ◌==◌, if◌then◌else◌, Time}
use urth.Types.{Result}
use urth.Outbox.Table.{OutboxEntry, dispatch_outbox_entry_version}

unfoldable pub digit : ℕ → Char
digit n =
    if n == 0
    then "0"
    else (if n == 1
        then "1"
        else (if n == 2
            then "2"
            else (if n == 3
                then "3"
                else (if n == 4
                    then "4"
                    else (if n == 5
                        then "5"
                        else (if n == 6
                            then "6"
                            else (if n == 7 then "7" else (if n == 8 then "8" else "9"))))))))

-- The digits of a number in front of a text; each round of the fuel writes one digit.
unfoldable pub digits_onto : ℕ → ℕ → String → String
unfolding digit
digits_onto zero n rest = rest
digits_onto (suc fuel) n rest =
    let more = digits_onto fuel (n / 10) (String.◌∷◌ (digit (n % 10)) rest) in
    if ltb n 10 then String.◌∷◌ (digit n) rest else more

-- `fmt.Sprintf("%v", n)`: a number has no more digits than its own value, and one.
unfoldable pub decimal : ℕ → String
unfolding digits_onto
decimal n = digits_onto (suc n) n ""

-- `DispatchEventUID`.
unfoldable pub dispatch_event_uid_of : String → ℕ → String
unfolding decimal
dispatch_event_uid_of uid version = uid ++ "." ++ decimal version

-- `NewDispatchOutboxEntry`; the database assigns the number and the times of the row.
unfoldable pub new_dispatch_outbox_entry : Result → Time → OutboxEntry
unfolding dispatch_event_uid_of
new_dispatch_outbox_entry result now = record {
  id = 0;
  schema_version = dispatch_outbox_entry_version;
  event_uid = dispatch_event_uid_of result.uid result.version;
  result_uid = result.uid;
  result_version = result.version;
  scenario_name = result.execution.scenario_name;
  runner_uid = result.executor.runner_id;
  created_at = 0;
  updated_at = 0;
  published_at = none;
  published_seq = 0;
  retired_at = none;
  retired_reason = "";
  not_before = now;
  attempts = 0;
  last_error = "";
  claimed_by = "";
  claim_expires_at = none;
}

abbrev pub last_error_limit : ℕ
last_error_limit = 1024

-- `truncateReason`, `truncateError` and `truncateDetail`. A text is cut at a whole character.
unfoldable pub truncate_reason : String → String
truncate_reason reason =
    if ltb last_error_limit (len reason) then slice reason 0 last_error_limit else reason
