-- ===== src/Controllers.antt =====
-- The supervisor of control loops: pkg/controllers/manager.go. Logging, the recovery from a panic,
-- which counts as a run that stopped, and the wait for the loops at the end are left out.
pub mod Restarts
use urth.Prelude.{
  ℕ, suc, ◌+◌, ◌-◌, ◌^◌, String, Bool, true, false, not, List, [], ◌∷◌, ◌++◌, leb, ltb_ℤ,
  if◌then◌else◌, Duration, pos, negsuc, max_duration,
}

pub record Manager {ℓ} (A : Type ℓ) : Type ℓ where
  pub min_backoff : Duration
  pub max_backoff : Duration
  pub healthy_run_time : Duration
  pub loops : List (String × A)
  pub is_started : Bool

-- `Add`, with whether the loop was accepted.
unfoldable pub add {ℓ} : {A : Type ℓ} → Manager A → String → A → Manager A × Bool
add m name loop =
    if m.is_started then (m, false) else (record m { loops = m.loops ++ (name, loop) ∷ [] }, true)

-- `Start`, with the loops that it launches.
unfoldable pub start {ℓ} : {A : Type ℓ} → Manager A → Manager A × List (String × A)
start m = (record m { is_started = true }, m.loops)

-- `backoff *= 2` of a 64-bit duration.
abbrev pub double_duration : Duration → Duration
double_duration (pos n) =
    if leb (n + n) max_duration then pos (n + n) else negsuc (2 ^ 64 - (n + n) - 1)
double_duration (negsuc n) =
    if leb (n + n + 2) (2 ^ 63) then negsuc (n + n + 1) else pos (2 ^ 64 - (n + n + 2))

-- One call of `runOnce`: how long it took, and whether the context had ended when it returned, or
-- ended in the wait after it.
pub record Run : Type 0 where
  pub ran_for : Duration
  pub is_cancelled : Bool
  pub is_wait_cancelled : Bool

-- A wait, and whether the loop was started again after it.
pub record Restart : Type 0 where
  pub wait : Duration
  pub is_restarted : Bool

module _ {ℓ} {A : Type ℓ} (m : Manager A) where
  open m use {min_backoff, max_backoff, healthy_run_time}

  abbrev pub is_healthy : Run → Bool
  is_healthy run = not (ltb_ℤ run.ran_for healthy_run_time)

  unfoldable pub next_backoff : Duration → Duration
  next_backoff backoff =
      if ltb_ℤ max_backoff (double_duration backoff) then max_backoff else double_duration backoff

  -- The loop of `supervise`, for the runs so far: it ends with the context.
  unfoldable pub supervise_from : Duration → List Run → List Restart
  unfolding next_backoff
  supervise_from backoff [] = []
  supervise_from backoff (run ∷ runs) =
      let wait = if is_healthy run then min_backoff else backoff in
      let rest = supervise_from (next_backoff wait) runs in
      if run.is_cancelled
      then []
      else (if run.is_wait_cancelled
          then record { wait = wait; is_restarted = false } ∷ []
          else record { wait = wait; is_restarted = true } ∷ rest)

  unfoldable pub supervise : List Run → List Restart
  unfolding supervise_from
  supervise runs = supervise_from min_backoff runs
