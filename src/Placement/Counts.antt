-- ===== src/Placement/Counts.antt =====
-- What the counts of a runner keep.
use urth.Prelude.{
  ◌≤◌, String, ◌≡◌, refl, Option, none, some, List, [], ◌∷◌, arith, Time, Duration, inl, inr,
  Bool-cases, ◌=ₛ◌,
}
use mathlib.Core.Path.{subst}
use mathlib.Core.Option.{some-injective}
use urth.Labels.{get_label, label_runner_uid}
use urth.Types.{Worker, Runner}
use urth.Placement.{
  RunnerCapacity, CapacityMap, count_worker, count_workers, seeded, worker_capacity, put_capacity,
  no_capacity, text_or_empty,
}

-- Online workers are ready, and ready workers are registered.
abbrev pub IsGraded : RunnerCapacity → Type 0
IsGraded c = (c.online_workers ≤ c.ready_workers) × (c.ready_workers ≤ c.registered_workers)

count_worker-IsGraded :
    (w : Worker) (now : Time) (offline_after : Duration) (c : RunnerCapacity)
    → IsGraded c
    → IsGraded (count_worker w now offline_after c)
unfolding count_worker
count_worker-IsGraded w now offline_after c h = ground arith

abbrev pub AllGraded : CapacityMap → Type 0
AllGraded m = (uid : String) (c : RunnerCapacity) → m uid ≡ some c → IsGraded c

put_capacity-AllGraded :
    (uid : String) (c : RunnerCapacity) (m : CapacityMap)
    → IsGraded c
    → AllGraded m
    → AllGraded (put_capacity uid c m)
put_capacity-AllGraded uid c m g h u c' e = elim (Bool-cases (u =ₛ uid)) [
  | inl same ↦ ground arith
  | inr other ↦ h u c' (rw other at e)
]

count_workers-AllGraded :
    (ws : List Worker) (now : Time) (offline_after : Duration) (m : CapacityMap)
    → AllGraded m
    → AllGraded (count_workers ws now offline_after m)
unfolding count_workers
count_workers-AllGraded [] now offline_after m h = h
count_workers-AllGraded (w ∷ ws) now offline_after m h =
    let uid = text_or_empty (get_label label_runner_uid w.labels) in
    count_workers-AllGraded ws now offline_after _ (counted (m uid) refl)
  where
    counted :
        (found : Option RunnerCapacity)
        → m (text_or_empty (get_label label_runner_uid w.labels)) ≡ found
        → AllGraded (elim found [
          | none ↦ m
          | some c ↦
              put_capacity
                (text_or_empty (get_label label_runner_uid w.labels))
                (count_worker w now offline_after c)
                m
        ])
    counted none e = h
    counted (some c) e =
        put_capacity-AllGraded _ _ m (count_worker-IsGraded w now offline_after c (h _ c e)) h

seeded-AllGraded : (rs : List Runner) → AllGraded (seeded rs)
seeded-AllGraded [] u c e = absurd (ground arith)
seeded-AllGraded (r ∷ rs) u c e =
    put_capacity-AllGraded r.uid no_capacity (seeded rs) (omega arith, omega arith)
      (seeded-AllGraded rs) u c e

-- In the capacity of a runner, online workers are counted as ready, and ready ones as registered,
-- whatever workers the query finds.
pub worker_capacity-AllGraded :
    (runners : List Runner) (workers : Option (List Worker)) (now : Time) (offline_after : Duration)
    (m : CapacityMap)
    → worker_capacity runners workers now offline_after ≡ some m
    → AllGraded m
unfolding worker_capacity
worker_capacity-AllGraded [] workers now offline_after m e =
    subst AllGraded (some-injective _ _ e) (seeded-AllGraded [])
worker_capacity-AllGraded (r ∷ rs) none now offline_after m e = absurd (ground arith)
worker_capacity-AllGraded (r ∷ rs) (some workers) now offline_after m e =
    subst AllGraded (some-injective _ _ e)
      (count_workers-AllGraded workers now offline_after _ (seeded-AllGraded (r ∷ rs)))
