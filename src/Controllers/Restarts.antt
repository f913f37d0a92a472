-- ===== src/Controllers/Restarts.antt =====
-- How long a stopped control loop waits before it is started again.
use urth.Prelude.{
  ℕ, zero, suc, ◌+◌, ◌*◌, ◌≤◌, min, true, false, ◌≡◌, refl, ap, ◌∙◌, inl, inr, List, [], ◌∷◌,
  if◌then◌else◌, pos, doubled, max_duration, arith, Bool-cases,
}
use urth.Controllers.{Manager, Run, Restart, is_healthy, next_backoff, supervise_from, supervise}

doubled_suc : (b n : ℕ) → doubled (b * 2) n ≡ doubled b n * 2
doubled_suc b zero = refl
doubled_suc b (suc n) = doubled_suc (b * 2) n

module _ {ℓ} {A : Type ℓ} (m : Manager A) (shortest longest : ℕ) where
  -- What a manager promises: the n-th restart since the last healthy run, from 0, waits n doublings
  -- of the shortest wait, at most the longest, and only the end of the context ends the restarts.
  unfoldable pub promised : ℕ → List Run → List Restart
  promised n [] = []
  promised n (run ∷ runs) =
      let since = if is_healthy m run then 0 else n in
      let rest = promised (suc since) runs in
      let wait = pos (min (doubled shortest since) longest) in
      if run.is_cancelled
      then []
      else (if run.is_wait_cancelled
          then record { wait = wait; is_restarted = false } ∷ []
          else record { wait = wait; is_restarted = true } ∷ rest)

  module _ (h : m.min_backoff ≡ pos shortest) (k : m.max_backoff ≡ pos longest)
      (ordered : shortest ≤ longest) (short : longest + longest ≤ max_duration) where
    next_backoff_lem :
        (n : ℕ)
        → next_backoff m (pos (min (doubled shortest n) longest))
          ≡ pos (min (doubled shortest (suc n)) longest)
    unfolding next_backoff
    next_backoff_lem n = ground (arith, h, k, doubled_suc shortest n)

    first : m.min_backoff ≡ pos (min (doubled shortest 0) longest)
    first = ground (arith, h)

    supervise_from-promised :
        (n : ℕ) (runs : List Run)
        → supervise_from m (pos (min (doubled shortest n) longest)) runs ≡ promised n runs
    unfolding supervise_from promised
    supervise_from-promised n [] = refl
    supervise_from-promised n (run ∷ runs) = elim (Bool-cases (is_healthy m run)) [
      | inl well ↦
          rw well (rw first (rw (next_backoff_lem 0) (rw (supervise_from-promised 1 runs) refl)))
      | inr ill ↦ rw ill (rw (next_backoff_lem n) (rw (supervise_from-promised (suc n) runs) refl))
    ]

    -- A manager keeps its promise: whenever a loop stops while its context lives, it is started
    -- again, unless the context ends in the wait; the wait is the shortest one after a run that
    -- was long enough to count as healthy, twice the last one otherwise, and at most the longest.
    -- The shortest wait is at most the longest, of which the double is still a duration.
    pub supervise-promised : (runs : List Run) → supervise m runs ≡ promised 0 runs
    unfolding supervise
    supervise-promised runs =
        ap (λ wait. supervise_from m wait runs) first ∙ supervise_from-promised 0 runs
