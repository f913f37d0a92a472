-- ===== src/Placement/Capacity.antt =====
-- What a runner can take on: `RunnerCapacity`, `workerCapacity`, `InFlightRuns`, `capacityOf`.
use urth.Prelude.{
  ℕ, suc, ◌+◌, String, Bool, true, false, not, ◌&&◌, Option, none, some, List, [], ◌∷◌, ◌=ₛ◌,
  if◌then◌else◌, length, where_, ℤ, sub_ℕ, Time, Duration,
}
use urth.Types.{Result, Worker, Runner}
use urth.Labels.{get_label, label_runner_uid}
use urth.Presence.{WorkerCondition, worker_presence_at}
use urth.Types.{is_pending, is_running}

pub record RunnerCapacity : Type 0 where
  pub online_workers : ℕ
  pub registered_workers : ℕ
  pub ready_workers : ℕ
  pub queued : ℕ
  pub running_runs : ℕ

abbrev pub no_capacity : RunnerCapacity
no_capacity = record {
  online_workers = 0;
  registered_workers = 0;
  ready_workers = 0;
  queued = 0;
  running_runs = 0;
}

abbrev pub committed : RunnerCapacity → ℕ
committed c = c.queued + c.running_runs

abbrev pub spare : RunnerCapacity → ℤ
spare c = sub_ℕ c.online_workers (committed c)

-- `map[ResourceID]RunnerCapacity`, and the zero value for an absent key.
abbrev pub CapacityMap : Type 0
CapacityMap = String → Option RunnerCapacity

abbrev pub capacity_at : CapacityMap → String → RunnerCapacity
capacity_at m uid = elim (m uid) [ none ↦ no_capacity | some c ↦ c ]

abbrev pub put_capacity : String → RunnerCapacity → CapacityMap → CapacityMap
put_capacity uid c m = λ u. if u =ₛ uid then some c else m u

abbrev pub is_online : WorkerCondition → Bool
is_online WorkerCondition.online = true
is_online _ = false

-- A worker counted into the entry of its runner.
unfoldable pub count_worker : Worker → Time → Duration → RunnerCapacity → RunnerCapacity
count_worker w now offline_after c =
    if w.status.is_paused
    then record c { registered_workers = suc c.registered_workers }
    else (if is_online (worker_presence_at w.status now offline_after).condition
        then record c {
          registered_workers = suc c.registered_workers;
          ready_workers = suc c.ready_workers;
          online_workers = suc c.online_workers;
        }
        else record c {
          registered_workers = suc c.registered_workers;
          ready_workers = suc c.ready_workers;
        })

abbrev pub text_or_empty : Option String → String
text_or_empty none = ""
text_or_empty (some t) = t

-- The loop over the workers that the label query found.
unfoldable pub count_workers : List Worker → Time → Duration → CapacityMap → CapacityMap
count_workers [] now offline_after m = m
count_workers (w ∷ ws) now offline_after m =
    let uid = text_or_empty (get_label label_runner_uid w.labels) in
    count_workers ws now offline_after
      (elim (m uid) [ none ↦ m | some c ↦ put_capacity uid (count_worker w now offline_after c) m ])

abbrev pub seeded : List Runner → CapacityMap
seeded [] = λ u. none
seeded (r ∷ rs) = put_capacity r.uid no_capacity (seeded rs)

-- `workerCapacity`, over what the query for workers answers.
unfoldable pub worker_capacity :
    List Runner → Option (List Worker) → Time → Duration → Option CapacityMap
unfolding count_workers
worker_capacity [] found now offline_after = some (λ u. none)
worker_capacity (r ∷ rs) none now offline_after = none
worker_capacity (r ∷ rs) (some workers) now offline_after =
    some (count_workers workers now offline_after (seeded (r ∷ rs)))

pub record RunnerLoad : Type 0 where
  pub queued : ℕ
  pub running_runs : ℕ

-- `InFlightRuns`, on the rows that are not deleted: the runs of each runner that are pending, and
-- that are running.
unfoldable pub in_flight_runs : List Result → String → RunnerLoad
in_flight_runs rows uid = record {
  queued = length (
      where_ (λ r. is_pending r.status && (not (uid =ₛ "") && (r.executor.runner_id =ₛ uid))) rows);
  running_runs = length (
      where_ (λ r. is_running r.status && (not (uid =ₛ "") && (r.executor.runner_id =ₛ uid))) rows);
}

abbrev pub with_load : RunnerLoad → RunnerCapacity → RunnerCapacity
with_load load c = record c { queued = load.queued; running_runs = load.running_runs }

-- What a placement reads: the workers that its query finds, the rows that the load store counts,
-- and the clock. The outer `Option` of `loads` is a placement without a load store, the inner one
-- a query that fails.
pub record Readings : Type 0 where
  pub workers : Option (List Worker)
  pub loads : Option (Option (List Result))
  pub now : Time
  pub offline_after : Duration

unfoldable pub capacity_of : Readings → List Runner → Option CapacityMap
unfolding worker_capacity in_flight_runs
capacity_of reads eligible =
    elim (worker_capacity eligible reads.workers reads.now reads.offline_after) [
      | none ↦ none
      | some m ↦ elim reads.loads [
        | none ↦ some m
        | some none ↦ none
        | some (some rows) ↦
            some (λ u. elim (m u) [
              | none ↦ none
              | some c ↦ some (with_load (in_flight_runs rows u) c)
            ])
      ]
    ]
