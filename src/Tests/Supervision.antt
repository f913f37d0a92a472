-- ===== src/Tests/Supervision.antt =====
-- A control loop that stops twice at once, runs well, and stops again.
use urth.Prelude.{true, false, ◌≡◌, refl, [], ◌∷◌, pos, seconds, minutes, arith}
use urth.Controllers.{Manager, Run, add, start, supervise, supervise_from, next_backoff}
use urth.Controllers.Restarts.{promised, supervise-promised}

abbrev manager : Manager Run
manager = record {
  min_backoff = pos (seconds 1);
  max_backoff = pos (minutes 1);
  healthy_run_time = pos (minutes 1);
  loops = [];
  is_started = false;
}

abbrev failed_run : Run
failed_run = record { ran_for = pos 5; is_cancelled = false; is_wait_cancelled = false }

abbrev well_run : Run
well_run = record { ran_for = pos (minutes 2); is_cancelled = false; is_wait_cancelled = false }

supervise-promised_example :
    supervise manager (failed_run ∷ failed_run ∷ well_run ∷ [])
    ≡ promised manager (seconds 1) (minutes 1) 0 (failed_run ∷ failed_run ∷ well_run ∷ [])
supervise-promised_example =
    supervise-promised manager (seconds 1) (minutes 1) refl refl (omega arith) (omega arith)
      (failed_run ∷ failed_run ∷ well_run ∷ [])

waits :
    supervise manager (failed_run ∷ failed_run ∷ well_run ∷ [])
    ≡ record { wait = pos (seconds 1); is_restarted = true }
      ∷ record { wait = pos (seconds 2); is_restarted = true }
      ∷ record { wait = pos (seconds 1); is_restarted = true }
      ∷ []
unfolding supervise next_backoff supervise_from
waits = refl

too_late : (add (start manager).0 "late" failed_run).1 ≡ false
unfolding add start
too_late = refl
