-- ===== src/Placement/Choice.antt =====
-- The choice among the eligible runners: `selectRunner`, `choose`, `Place`, `Preview`.
use Prim.Native.String.{compare}
use urth.Prelude.{
  ℕ, ◌+◌, ◌-◌, ◌*◌, String, Bool, true, false, not, Option, none, some, List, [], ◌∷◌, map,
  if◌then◌else◌, ltb, ◌==◌, where_, length, ltb_ℤ, eqb_ℤ, pos, pos_part,
}
use text.Mathlib.Text.{is_lt}
use urth.Prelude.{sort_stable}
use urth.Types.{Runner}
use urth.Placement.Capacity.{
  RunnerCapacity, no_capacity, committed, spare, CapacityMap, capacity_at, Readings, capacity_of,
}

pub data PlacementRegime : Type 0 where
  by_spare saturated sole_candidate unmeasured : PlacementRegime

-- `Pressure`, exactly: infinite with nothing online, else committed work over online workers.
pub data Pressure : Type 0 where
  infinite : Pressure
  ratio : ℕ → ℕ → Pressure

abbrev pub pressure : RunnerCapacity → Pressure
pressure c = if c.online_workers == 0 then infinite else ratio (committed c) c.online_workers

abbrev pub eqb_pressure : Pressure → Pressure → Bool
eqb_pressure infinite infinite = true
eqb_pressure (ratio a b) (ratio c d) = a * d == c * b
eqb_pressure _ _ = false

abbrev pub ltb_pressure : Pressure → Pressure → Bool
ltb_pressure infinite _ = false
ltb_pressure (ratio a b) infinite = true
ltb_pressure (ratio a b) (ratio c d) = ltb (a * d) (c * b)

abbrev pub ltb_text : String → String → Bool
ltb_text a b = is_lt (compare a b)

-- The less function of the sort by room.
unfoldable pub less_loaded : CapacityMap → Runner → Runner → Bool
less_loaded capacity a b =
    let left = capacity_at capacity a.uid in
    let right = capacity_at capacity b.uid in
    if not (eqb_ℤ (spare left) (spare right))
    then ltb_ℤ (spare right) (spare left)
    else (if not (eqb_pressure (pressure left) (pressure right))
        then ltb_pressure (pressure left) (pressure right)
        else ltb_text a.uid b.uid)

abbrev pub sum : List ℕ → ℕ
sum [] = 0
sum (n ∷ ns) = n + sum ns

abbrev pub weights_by : (RunnerCapacity → ℕ) → CapacityMap → List Runner → List ℕ
weights_by weight capacity eligible =
    map (λ (r : Runner). weight (capacity_at capacity r.uid)) eligible

-- The weights of the draw: online workers, else registered workers, else one each.
unfoldable pub draw_weights : CapacityMap → List Runner → List ℕ
draw_weights capacity eligible =
    let online = weights_by (λ c. c.online_workers) capacity eligible in
    let registered = weights_by (λ c. c.registered_workers) capacity eligible in
    if sum online == 0
    then (if sum registered == 0 then map (λ r. 1) eligible else registered)
    else online

-- The loop that walks the weights; `first` is the runner that a draw off the end places on.
unfoldable pub pick_weighted : ℕ → List Runner → List ℕ → Runner → Runner
pick_weighted target [] weights first = first
pick_weighted target (r ∷ rs) [] first = first
pick_weighted target (r ∷ rs) (w ∷ ws) first =
    let rest = pick_weighted (target - w) rs ws first in if ltb target w then r else rest

-- `draw`, with the source of randomness given.
abbrev pub draw : (ℕ → ℕ) → ℕ → ℕ
draw source n = if n == 0 then 0 else source n

abbrev pub has_room : CapacityMap → Runner → Bool
has_room capacity r = ltb_ℤ (pos 0) (spare (capacity_at capacity r.uid))

-- The eligible runners are `first ∷ others`.
unfoldable pub select_runner :
    (ℕ → ℕ) → Runner → List Runner → CapacityMap → Runner × RunnerCapacity × PlacementRegime
unfolding less_loaded draw_weights pick_weighted
select_runner source first others capacity =
    elim (sort_stable (less_loaded capacity) (where_ (has_room capacity) (first ∷ others))) [
      | best ∷ _ ↦ (best, capacity_at capacity best.uid, by_spare)
      | [] ↦
          let weights = draw_weights capacity (first ∷ others) in
          let r = pick_weighted (draw source (sum weights)) (first ∷ others) weights first in
          (r, capacity_at capacity r.uid, saturated)
    ]

unfoldable pub choose :
    (ℕ → ℕ) → Readings → Runner → List Runner → Runner × RunnerCapacity × PlacementRegime
unfolding select_runner capacity_of
choose source reads first [] = (first, no_capacity, sole_candidate)
choose source reads first (second ∷ others) = elim (capacity_of reads (first ∷ (second ∷ others))) [
  | none ↦ (first, no_capacity, unmeasured)
  | some capacity ↦ select_runner source first (second ∷ others) capacity
]

pub data Reason : Type 0 where
  invalid_requirements no_eligible_runner : Reason

pub data PlacementDecision : Type 0 where
  placed : Runner → RunnerCapacity → PlacementRegime → PlacementDecision
  unplaced : Reason → PlacementDecision

-- The eligible subset of the runners that the selector matches.
abbrev pub eligible_of : List Runner → List Runner
eligible_of matching = where_ (λ r. r.is_active) matching

abbrev pub by_uid : Runner → Runner → Bool
by_uid a b = ltb_text a.uid b.uid

-- `Place`, over what the selector's query answers: none where the selector does not parse or the
-- query fails.
unfoldable pub place : (ℕ → ℕ) → Readings → Option (List Runner) → PlacementDecision
unfolding choose
place source reads none = unplaced invalid_requirements
place source reads (some matching) = elim (sort_stable by_uid (eligible_of matching)) [
  | [] ↦ unplaced no_eligible_runner
  | first ∷ others ↦
      let chosen = choose source reads first others in placed chosen.0 chosen.1 chosen.2
]

pub record PlacementPreview : Type 0 where
  pub matching_runners : ℕ
  pub eligible_runners : ℕ
  pub registered_workers : ℕ
  pub ready_workers : ℕ
  pub online_workers : ℕ
  pub queued_runs : ℕ
  pub running_runs : ℕ
  pub spare_capacity : ℕ
  pub schedulable : Bool
  pub reason : Option Reason

abbrev pub empty_preview : PlacementPreview
empty_preview = record {
  matching_runners = 0;
  eligible_runners = 0;
  registered_workers = 0;
  ready_workers = 0;
  online_workers = 0;
  queued_runs = 0;
  running_runs = 0;
  spare_capacity = 0;
  schedulable = false;
  reason = none;
}

-- The loop of `Preview` over the eligible runners.
unfoldable pub add_capacities : CapacityMap → List Runner → PlacementPreview → PlacementPreview
add_capacities capacity [] p = p
add_capacities capacity (r ∷ rs) p =
    let c = capacity_at capacity r.uid in
    add_capacities capacity rs (record p {
      registered_workers = p.registered_workers + c.registered_workers;
      ready_workers = p.ready_workers + c.ready_workers;
      online_workers = p.online_workers + c.online_workers;
      queued_runs = p.queued_runs + c.queued;
      running_runs = p.running_runs + c.running_runs;
      spare_capacity = p.spare_capacity + pos_part (spare c);
    })

-- `Preview`: the preview, and whether it comes with an error.
unfoldable pub preview : Readings → Option (List Runner) → PlacementPreview × Bool
unfolding add_capacities capacity_of
preview reads none = (record empty_preview { reason = some invalid_requirements }, false)
preview reads (some matching) =
    let eligible = eligible_of matching in
    let p = record empty_preview {
      matching_runners = length matching;
      eligible_runners = length eligible;
      schedulable = ltb 0 (length eligible);
      reason = if ltb 0 (length eligible) then none else some no_eligible_runner;
    } in
    elim (capacity_of reads eligible) [
      | none ↦ (p, true)
      | some capacity ↦ (add_capacities capacity eligible p, false)
    ]
