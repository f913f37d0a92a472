-- ===== src/Placement/Agreement.antt =====
-- `Place` and `Preview` give one answer, and only eligible runners are placed on.
use urth.Prelude.{insert, sort_stable, sort_stable-All, where-All, List-cases}
use urth.Prelude.{
  ℕ, suc, ◌-◌, ltb, ◌<◌, Bool, true, false, ◌≡◌, refl, sym, ap, ◌∙◌, ◌↔◌, ◌⊎◌, inl, inr, Option,
  none, some, List, [], ◌∷◌, length, where_, All, arith, Bool-cases, Option-cases, if◌then◌else◌,
}
use mathlib.Core.Path.{subst}
use urth.Types.{Runner}
use urth.Placement.{
  RunnerCapacity, CapacityMap, Readings, capacity_of, PlacementRegime, less_loaded, has_room,
  draw_weights, pick_weighted, select_runner, choose, placed, unplaced, no_eligible_runner, Reason,
  place, by_uid, eligible_of, PlacementPreview, preview, add_capacities,
}

module _ (P : Runner → Type 0) where
  if-either : (b : Bool) {x y : Runner} → P x → P y → P (if b then x else y)
  if-either true p q = p
  if-either false p q = q

  pick_weighted-All :
      (target : ℕ) (rs : List Runner) (ws : List ℕ) (first : Runner)
      → P first
      → All P rs
      → P (pick_weighted target rs ws first)
  unfolding pick_weighted
  pick_weighted-All target [] ws first p h = p
  pick_weighted-All target (r ∷ rs) [] first p h = p
  pick_weighted-All target (r ∷ rs) (w ∷ ws) first p (q, h) =
      if-either (ltb target w) q (pick_weighted-All (target - w) rs ws first p h)

  select_runner-All :
      (source : ℕ → ℕ) (first : Runner) (others : List Runner) (capacity : CapacityMap)
      → P first
      → All P others
      → P (select_runner source first others capacity).0
  unfolding select_runner
  select_runner-All source first others capacity p h =
      let roomy = where_ (has_room capacity) (first ∷ others) in
      let kept =
        sort_stable-All P (less_loaded capacity) roomy
          (where-All P (has_room capacity) (first ∷ others) (p, h)) in
      elim (List-cases (sort_stable (less_loaded capacity) roomy)) [
        | inl e ↦
            rw (e, select_runner)
              (pick_weighted-All _ (first ∷ others) (draw_weights capacity (first ∷ others)) first p
                (p, h))
        | inr (best, rest, e) ↦ rw (e, select_runner) (rw e at kept).0
      ]

  choose-All :
      (source : ℕ → ℕ) (reads : Readings) (first : Runner) (others : List Runner)
      → P first
      → All P others
      → P (choose source reads first others).0
  unfolding choose
  choose-All source reads first [] p h = p
  choose-All source reads first (second ∷ others) p h =
      elim (Option-cases (capacity_of reads (first ∷ (second ∷ others)))) [
        | inl e ↦ rw (e, choose) p
        | inr (capacity, e) ↦
            rw (e, choose) (select_runner-All source first (second ∷ others) capacity p h)
      ]

  -- What holds of every eligible runner holds of the runner that is placed on.
  pub place-All :
      (source : ℕ → ℕ) (reads : Readings) (matching : List Runner) (r : Runner) (c : RunnerCapacity)
      (regime : PlacementRegime)
      → All P (eligible_of matching)
      → place source reads (some matching) ≡ placed r c regime
      → P r
  unfolding place
  place-All source reads matching r c regime h e =
      elim (List-cases (sort_stable by_uid (eligible_of matching))) [
        | inl none_left ↦ absurd (ground arith)
        | inr (first, others, split) ↦
            let kept = rw split at (sort_stable-All P by_uid (eligible_of matching) h) in
            let chosen = choose source reads first others in
            subst P (ground (arith, split, e)) (choose-All source reads first others kept.0 kept.1)
      ]

where-test {ℓ} :
    {A : Type ℓ} (test : A → Bool) (xs : List A) → All (λ x. test x ≡ true) (where_ test xs)
where-test test [] = tt
where-test test (x ∷ xs) = elim (Bool-cases (test x)) [
  | inl e ↦ rw e (e, where-test test xs)
  | inr e ↦ rw e (where-test test xs)
]

All-both {ℓ} :
    {A : Type ℓ} (P Q : A → Type 0) (xs : List A) → All P xs → All Q xs → All (λ x. P x × Q x) xs
All-both P Q [] h k = tt
All-both P Q (x ∷ xs) (p, h) (q, k) = ((p, q), All-both P Q xs h k)

-- A run is only placed on an active runner, and on one that the selector matches: what holds of
-- all of these holds of it.
pub place-eligible :
    (Q : Runner → Type 0) (source : ℕ → ℕ) (reads : Readings) (matching : List Runner) (r : Runner)
    (c : RunnerCapacity) (regime : PlacementRegime)
    → All Q matching
    → place source reads (some matching) ≡ placed r c regime
    → (r.is_active ≡ true) × Q r
place-eligible Q source reads matching r c regime h e =
    place-All (λ x. (x.is_active ≡ true) × Q x) source reads matching r c regime
      (All-both (λ x. x.is_active ≡ true) Q (eligible_of matching)
        (where-test (λ x. x.is_active) matching) (where-All Q (λ x. x.is_active) matching h))
      e

insert-length {ℓ} :
    {A : Type ℓ} (less : A → A → Bool) (x : A) (xs : List A)
    → length (insert less x xs) ≡ suc (length xs)
insert-length less x [] = refl
insert-length less x (y ∷ ys) = ground (arith, insert-length less x ys)

sort_stable-length {ℓ} :
    {A : Type ℓ} (less : A → A → Bool) (xs : List A) → length (sort_stable less xs) ≡ length xs
sort_stable-length less [] = refl
sort_stable-length less (x ∷ xs) =
    omega (arith, insert-length less x (sort_stable less xs), sort_stable-length less xs)

add_capacities-verdict :
    (capacity : CapacityMap) (rs : List Runner) (p : PlacementPreview)
    → ((add_capacities capacity rs p).schedulable ≡ p.schedulable)
      × ((add_capacities capacity rs p).reason ≡ p.reason)
unfolding add_capacities
add_capacities-verdict capacity [] p = (refl, refl)
add_capacities-verdict capacity (r ∷ rs) p = add_capacities-verdict capacity rs _

preview_verdict :
    (reads : Readings) (matching : List Runner)
    → let some_eligible = ltb 0 (length (eligible_of matching)) in
      ((preview reads (some matching)).0.schedulable ≡ some_eligible)
      × ((preview reads (some matching)).0.reason
          ≡ (if some_eligible then none else some no_eligible_runner))
unfolding preview
preview_verdict reads matching = elim (Option-cases (capacity_of reads (eligible_of matching))) [
  | inl e ↦ rw (e, preview) (refl, refl)
  | inr (capacity, e) ↦ rw (e, preview) (add_capacities-verdict capacity (eligible_of matching) _)
]

place_verdict :
    (source : ℕ → ℕ) (reads : Readings) (matching : List Runner)
    → ((length (eligible_of matching) ≡ 0)
        × (place source reads (some matching) ≡ unplaced no_eligible_runner))
      ⊎ ((0 < length (eligible_of matching))
          × ((r : Runner) × (c : RunnerCapacity) × (regime : PlacementRegime) × (place source reads
                  (some matching)
                ≡ placed r c regime)))
unfolding place
place_verdict source reads matching =
    let same = sort_stable-length by_uid (eligible_of matching) in
    elim (List-cases (sort_stable by_uid (eligible_of matching))) [
      | inl e ↦ inl (sym same ∙ ap length e, rw (e, place) refl)
      | inr (first, others, e) ↦
          let chosen = choose source reads first others in
          inr (
            omega (arith, sym same ∙ ap length e),
            (chosen.0, chosen.1, chosen.2, rw (e, place) refl),
          )
    ]

-- The preview calls a scenario schedulable exactly if a run of it would be placed, and otherwise
-- gives the reason that the run would carry, whatever the capacity and the source of randomness.
pub preview-place :
    (source : ℕ → ℕ) (reads : Readings) (matching : Option (List Runner))
    → (((preview reads matching).0.schedulable ≡ true) ↔ (
        (r : Runner) × (c : RunnerCapacity) × (regime : PlacementRegime) × (place source reads
            matching
          ≡ placed r c regime)))
      × ((why : Reason)
          → ((preview reads matching).0.reason ≡ some why)
            ↔ (place source reads matching ≡ unplaced why))
unfolding preview place
preview-place source reads none =
    ((λ h. absurd (ground arith), λ p. absurd (ground arith)), λ why. ground arith)
preview-place source reads (some matching) =
    let (able, why_not) = preview_verdict reads matching in
    elim (place_verdict source reads matching) [
      | inl (empty, e) ↦
          ((λ h. absurd (ground arith), λ p. absurd (ground arith)), λ why. ground arith)
      | inr (some_left, (r, c, regime, e)) ↦
          ((λ h. (r, c, regime, e), λ p. ground arith), λ why. ground arith)
    ]
