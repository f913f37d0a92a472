-- ===== src/Tests/Placements.antt =====
-- Placements among three runners, the presence of a worker, and label values.
use urth.Prelude.{
  ◌⊎◌, inr, eq_iff, ℕ, String, true, false, ◌≡◌, refl, ◌↔◌, none, some, [], ◌∷◌, pos, arith,
  if◌then◌else◌, ◌=ₛ◌,
}
use mathlib.Core.List.{mem-cons_self, mem-cons_of_mem}
use urth.Types.{Runner, Worker, WorkerStatus}
use urth.Labels.{is_alphanumeric, is_label_rune, label_safe_value, label_runner_uid}
use urth.Labels.Grammar.{
  IsLabelValue, has_alphanumeric, label_safe_value-IsLabelValue, label_safe_value_of_IsLabelValue,
}
use urth.Presence.{WorkerCondition, worker_presence_at, is_silent}
use urth.Presence.Eviction.{is_silent-offline}
use urth.Placement.{
  RunnerCapacity, CapacityMap, no_capacity, Readings, less_loaded, select_runner, pick_weighted,
  place, placed, unplaced, preview, Reason, by_spare, PlacementRegime,
}
use urth.Placement.Ranking.{select_runner-best, IsBestPlacement}
use urth.Placement.Draw.{pick_weighted_share}
use urth.Placement.Agreement.{preview-place}

abbrev runner_named : String → Runner
runner_named uid = record {
  name = uid;
  uid = uid;
  labels = [];
  is_active = true;
  requirements = "";
  max_instances = 0;
}

abbrev east : Runner
east = runner_named "r-1"

abbrev west : Runner
west = runner_named "r-2"

abbrev north : Runner
north = runner_named "r-3"

abbrev with_counts : ℕ → ℕ → RunnerCapacity
with_counts online queued = record no_capacity {
  online_workers = online;
  registered_workers = online;
  ready_workers = online;
  queued = queued;
}

-- The west has as much room as the north, and less work; the east has none.
abbrev fleet : CapacityMap
fleet = λ uid.
    if uid =ₛ "r-1"
    then some (with_counts 1 3)
    else (if uid =ₛ "r-2" then some (with_counts 2 0) else some (with_counts 5 3))

select_runner-best_example :
    IsBestPlacement fleet
      (east ∷ west ∷ north ∷ [])
      (select_runner (λ n. 0) east (west ∷ north ∷ []) fleet)
select_runner-best_example =
    select_runner-best fleet (λ n. 0) east west (west ∷ north ∷ [])
      (mem-cons_of_mem east mem-cons_self) (omega arith)

to_west : select_runner (λ n. 0) east (west ∷ north ∷ []) fleet ≡ (west, with_counts 2 0, by_spare)
unfolding select_runner less_loaded
to_west = refl

-- Of six draws, the last three pick the third runner.
pick_weighted_share_example :
    pick_weighted 5 (east ∷ west ∷ north ∷ []) (1 ∷ 2 ∷ 3 ∷ []) east ≡ north
pick_weighted_share_example =
    pick_weighted_share (east ∷ west ∷ []) [] (1 ∷ 2 ∷ []) [] north east 3 2 refl (omega arith)

abbrev full_fleet : CapacityMap
full_fleet = λ uid. if uid =ₛ "r-1" then some (with_counts 0 0) else some (with_counts 2 4)

-- A reading with no worker in it, and a load store that is down.
abbrev readings : Readings
readings = record { workers = some []; loads = some none; now = 1000; offline_after = pos 0 }

preview-place_example :
    (((preview readings (some (east ∷ west ∷ []))).0.schedulable ≡ true) ↔ (
      (r : Runner) × (c : RunnerCapacity) × (regime : PlacementRegime) × (place
          (λ n. 0)
          readings
          (some (east ∷ west ∷ []))
        ≡ placed r c regime)))
    × ((why : Reason)
        → ((preview readings (some (east ∷ west ∷ []))).0.reason ≡ some why)
          ↔ (place (λ n. 0) readings (some (east ∷ west ∷ [])) ≡ unplaced why))
preview-place_example = preview-place (λ n. 0) readings (some (east ∷ west ∷ []))

abbrev seen : WorkerStatus
seen = record {
  is_paused = false;
  last_seen_time = some 900;
  last_seen_via = none;
  nats_last_seen_time = some 950;
  left_at = none;
}

abbrev labelled : Worker
labelled = record {
  name = "worker";
  uid = "w-1";
  version = 1;
  labels = (label_runner_uid, "r-1") ∷ [];
  runner_id = "r-1";
  status = seen;
}

abbrev counted : CapacityMap
counted = λ u. if u =ₛ "r-1" then some (record (with_counts 1 0) { queued = 0 }) else none

is_silent-offline_example :
    (worker_presence_at seen 10000 (pos 500)).condition ≡ WorkerCondition.offline
unfolding is_silent
is_silent-offline_example =
    is_silent-offline seen 10000 9000 500 (omega arith) (omega arith) (omega arith) (omega arith)
      (omega arith) refl

label_safe_value-IsLabelValue_example :
    (has_alphanumeric "-my worker!" ≡ false) × (label_safe_value "-my worker!" ≡ "")
    ⊎ (has_alphanumeric "-my worker!" ≡ true) × IsLabelValue (label_safe_value "-my worker!")
label_safe_value-IsLabelValue_example = label_safe_value-IsLabelValue "-my worker!"

label_safe_value_of_IsLabelValue_example : label_safe_value "w1" ≡ "w1"
unfolding is_alphanumeric is_label_rune
label_safe_value_of_IsLabelValue_example = label_safe_value_of_IsLabelValue "w1" (
    inr (
      λ e. ground (arith, eq_iff "w1" "", e),
      record { runes = (refl, (refl, tt)); first = refl; last = refl },
    ))
