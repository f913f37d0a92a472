-- ===== src/Placement/Draw.antt =====
-- The weighted draw in a saturated fleet.
use urth.Prelude.{sort_stable, List-cases}
use urth.Prelude.{ℕ, ◌+◌, ◌-◌, ◌<◌, ◌≡◌, List, [], ◌∷◌, ◌++◌, map, where_, inl, inr, length, arith}
use urth.Types.{Runner}
use urth.Placement.{
  CapacityMap, capacity_at, draw_weights, draw, select_runner, saturated, less_loaded, has_room,
  pick_weighted, sum, weights_by,
}

-- With the weights laid end to end, a draw that falls into the part of a runner picks it. So out
-- of the draws below the sum of the weights, as many pick a runner as its weight says.
pub pick_weighted_share :
    (before after : List Runner) (ws vs : List ℕ) (r first : Runner) (w t : ℕ)
    → length ws ≡ length before
    → t < w
    → pick_weighted (sum ws + t) (before ++ (r ∷ after)) (ws ++ (w ∷ vs)) first ≡ r
unfolding pick_weighted
pick_weighted_share [] after [] vs r first w t same h = ground arith
pick_weighted_share [] after (v ∷ ws) vs r first w t same h = absurd (omega arith)
pick_weighted_share (b ∷ before) after [] vs r first w t same h = absurd (omega arith)
pick_weighted_share (b ∷ before) after (v ∷ ws) vs r first w t same h =
    let rest = pick_weighted_share before after ws vs r first w t (omega (arith, same)) h in
    ground (arith, rest)

-- A draw below the sum of the weights never picks a runner of weight zero.
pub pick_weighted_positive :
    (weight : Runner → ℕ) (target : ℕ) (rs : List Runner) (first : Runner)
    → target < sum (map weight rs)
    → 0 < weight (pick_weighted target rs (map weight rs) first)
unfolding pick_weighted
pick_weighted_positive weight target [] first h = absurd (omega arith)
pick_weighted_positive weight target (r ∷ rs) first h =
    ground (arith, pick_weighted_positive weight (target - weight r) rs first)

draw-positive : (source : ℕ → ℕ) (n : ℕ) → 0 < n → draw source n ≡ source n
draw-positive source n h = ground arith

draw_weights_online :
    (capacity : CapacityMap) (eligible : List Runner)
    → 0 < sum (weights_by (λ c. c.online_workers) capacity eligible)
    → draw_weights capacity eligible ≡ weights_by (λ c. c.online_workers) capacity eligible
unfolding draw_weights
draw_weights_online capacity eligible h = ground arith

-- In a saturated fleet with a worker online anywhere, a run goes to a runner that has one online.
pub select_runner_online :
    (source : ℕ → ℕ) (first : Runner) (others : List Runner) (capacity : CapacityMap)
    → ((n : ℕ) → 0 < n → source n < n)
    → (select_runner source first others capacity).2 ≡ saturated
    → 0 < sum (weights_by (λ c. c.online_workers) capacity (first ∷ others))
    → 0 < (select_runner source first others capacity).1.online_workers
unfolding select_runner
select_runner_online source first others capacity within regime some_online =
    elim (List-cases
      (sort_stable (less_loaded capacity) (where_ (has_room capacity) (first ∷ others)))) [
        | inr (best, rest, e) ↦ absurd (ground arith)
        | inl e ↦
            let online = sum (weights_by (λ c. c.online_workers) capacity (first ∷ others)) in
            rw (e, select_runner)
              (rw (draw_weights_online capacity (first ∷ others) some_online) (
                rw (draw-positive source online some_online) (
                  pick_weighted_positive (λ r. (capacity_at capacity r.uid).online_workers)
                    (source online) (first ∷ others) first (within online some_online))))
      ]
