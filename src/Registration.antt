-- ===== src/Registration.antt =====
-- The registration of workers: `admitWorker` and `AuthWorker` of pkg/urth/service.go. The parsers of
-- enrolment tokens and of selectors, the signer of sessions and the transport are given.
pub mod Enlisting
pub mod Sessions
use urth.Prelude.{
  ℕ, suc, String, Bool, true, false, not, ◌&&◌, ◌||◌, ◌≡◌, Option, none, some, [], ltb, ◌==◌,
  if◌then◌else◌, Time, Duration, pos, hours, is_nonpositive, ltb_ℤ, ◌=ₛ◌,
}
use urth.Types.{Labels, Worker, WorkerStatus, Runner}
use urth.Labels.{put_label, label_runner_name, label_runner_uid}
use urth.Store.{
  Database, failed, missing, found, Write, failed_write, rejected, applied, or_else, over_text,
  over_labels,
}

-- The row of a worker after a write of `e` over `r`; fields that are zero in `e` are skipped.
abbrev pub over_status : WorkerStatus → WorkerStatus → WorkerStatus
over_status old new = record {
  is_paused = old.is_paused || new.is_paused;
  last_seen_time = or_else new.last_seen_time old.last_seen_time;
  last_seen_via = or_else new.last_seen_via old.last_seen_via;
  nats_last_seen_time = or_else new.nats_last_seen_time old.nats_last_seen_time;
  left_at = or_else new.left_at old.left_at;
}

abbrev pub stored_worker : Worker → Worker → ℕ → Worker
stored_worker r e version = record {
  name = over_text r.name e.name;
  uid = r.uid;
  version = version;
  labels = over_labels r.labels e.labels;
  runner_id = over_text r.runner_id e.runner_id;
  status = over_status r.status e.status;
}

-- The reads and writes of workers that registration stands on.
pub record Enrolment (db : Database) : Type 0 where
  -- `Expand("Instances", ...)`: the worker of the runner with the name, and how many it has.
  pub instance_named : db.State → String → String → Option Worker
  pub number_instances : db.State → String → ℕ
  pub update_worker : db.State → Worker → ℕ → db.State × Write
  pub create_worker : db.State → Worker → Option (db.State × Worker)
  pub instance_named_row :
      (s : db.State) (runner name : String) (w : Worker)
      → instance_named s runner name ≡ some w
      → (db.worker_row s w.uid ≡ some w) × (w.name ≡ name) × (w.runner_id ≡ runner)
  pub update_worker_applied :
      (s : db.State) (e : Worker) (v v' : ℕ)
      → (update_worker s e v).1 ≡ applied v'
      → (r : Worker) × (db.worker_row s e.uid ≡ some r)
        × (r.version ≡ v)
        × (db.worker_row (update_worker s e v).0 e.uid ≡ some (stored_worker r e (suc v)))
  pub update_worker_rejected :
      (s : db.State) (e : Worker) (v : ℕ) (uid : String)
      → (update_worker s e v).1 ≡ rejected
      → db.worker_row (update_worker s e v).0 uid ≡ db.worker_row s uid
  pub create_worker_row :
      (s : db.State) (e : Worker) (made : db.State × Worker)
      → create_worker s e ≡ some made
      → (db.worker_row s made.1.uid ≡ none)
        × (db.worker_row made.0 made.1.uid ≡ some made.1)
        × (made.1 ≡ record e { uid = made.1.uid; version = made.1.version })

-- What the service is assembled with.
pub record Gate : Type 0 where
  pub parse_token : String → Option String
  pub parse_selector : String → Option (Labels → Bool)
  pub sign_session : String → String → Duration → Option (String × Time)
  pub connection_info : String → Option String
  pub session_ttl : Duration

-- The manifest of a worker that registers.
pub record Enlistment : Type 0 where
  pub name : String
  pub labels : Labels
  pub requested_ttl : Duration

pub data AdmitError : Type 0 where
  unauthorized invalid_manifest store_error no_transport : AdmitError

-- An answer of registration.
pub data Admitted {ℓ} (A : Type ℓ) : Type ℓ where
  refused : AdmitError → Admitted A
  admitted : A → Admitted A

-- `workerLabels`.
unfoldable pub worker_labels : Runner → Labels
unfolding put_label
worker_labels runner =
    put_label label_runner_uid runner.uid (put_label label_runner_name runner.name [])

abbrev pub unseen : WorkerStatus
unseen = record {
  is_paused = false;
  last_seen_time = none;
  last_seen_via = none;
  nats_last_seen_time = none;
  left_at = none;
}

-- A runner has room for a new worker.
abbrev pub has_room : Runner → ℕ → Bool
has_room runner instances =
    not (ltb 0 runner.max_instances && not (ltb instances runner.max_instances))

abbrev pub default_session_ttl : Duration
default_session_ttl = pos (hours 1)

-- How long a session lasts: a worker can ask for less than the server gives.
unfoldable pub session_ttl_of : Duration → Duration → Duration
session_ttl_of configured requested =
    let ttl = if is_nonpositive configured then default_session_ttl else configured in
    if not (is_nonpositive requested) && ltb_ℤ requested ttl then requested else ttl

abbrev pub requested_ttl_of : Option Enlistment → Duration
requested_ttl_of none = pos 0
requested_ttl_of (some e) = e.requested_ttl

module _ (db : Database) (enrolment : Enrolment db) (gate : Gate) where
  open db use {State, get_runner, merge_labels}
  open enrolment use {instance_named, number_instances, update_worker, create_worker}
  open gate use {parse_token, parse_selector, sign_session, connection_info, session_ttl}

  -- The existing worker takes its labels and its runner from the registration, not its status.
  abbrev pub refreshed : Worker → Enlistment → Runner → Worker
  refreshed w enlistment runner = record w {
    labels = merge_labels enlistment.labels (worker_labels runner);
  }

  abbrev pub recruit : Enlistment → Runner → Worker
  recruit enlistment runner = record {
    name = enlistment.name;
    uid = "";
    version = 0;
    labels = merge_labels enlistment.labels (worker_labels runner);
    runner_id = runner.uid;
    status = unseen;
  }

  -- The end of `admitWorker`: whether the write of a worker that was there applied is not looked at.
  unfoldable pub enlist : State → Enlistment → Runner → State × Admitted (Runner × Worker)
  unfolding worker_labels
  enlist s enlistment runner = elim (instance_named s runner.uid enlistment.name) [
    | some w ↦
        let written = update_worker s (refreshed w enlistment runner) w.version in
        elim written.1 [
          | failed_write ↦ (s, refused store_error)
          | rejected ↦ (written.0, admitted (runner, refreshed w enlistment runner))
          | applied v ↦ (written.0, admitted (runner, refreshed w enlistment runner))
        ]
    | none ↦
        if has_room runner (number_instances s runner.uid)
        then elim (create_worker s (recruit enlistment runner)) [
          | none ↦ (s, refused store_error)
          | some made ↦ (made.0, admitted (runner, made.1))
        ]
        else (s, refused unauthorized)
  ]

  -- The checks on the runner and on the manifest; nothing where the manifest is no worker's.
  unfoldable pub match_runner :
      State → Option Enlistment → Runner → State × Admitted (Runner × Worker)
  unfolding enlist
  match_runner s none runner = (s, refused invalid_manifest)
  match_runner s (some enlistment) runner = elim (parse_selector runner.requirements) [
    | none ↦ (s, refused unauthorized)
    | some matches ↦
        if matches enlistment.labels then enlist s enlistment runner else (s, refused unauthorized)
  ]

  unfoldable pub admit_worker :
      State → String → Option Enlistment → State × Admitted (Runner × Worker)
  unfolding match_runner
  admit_worker s token enlistment = elim (parse_token token) [
    | none ↦ (s, refused unauthorized)
    | some subject ↦ elim (get_runner s subject) [
      | failed ↦ (s, refused store_error)
      | missing ↦ (s, refused unauthorized)
      | found runner ↦
          if runner.is_active then match_runner s enlistment runner else (s, refused unauthorized)
    ]
  ]

  -- `AuthWorker`: the runner, the worker, its session with the end of it, and its queue.
  unfoldable pub auth_worker :
      State
      → String
      → Option Enlistment
      → State × Admitted (Runner × Worker × String × Time × String)
  unfolding admit_worker session_ttl_of
  auth_worker s token enlistment =
      let (s', answer) = admit_worker s token enlistment in
      elim answer [
        | refused why ↦ (s', refused why)
        | admitted (runner, worker) ↦
            elim (sign_session runner.uid worker.uid
              (session_ttl_of session_ttl (requested_ttl_of enlistment))) [
                | none ↦ (s', refused store_error)
                | some (session, expires) ↦ elim (connection_info runner.uid) [
                  | none ↦ (s', refused no_transport)
                  | some info ↦ (s', admitted (runner, worker, session, expires, info))
                ]
              ]
      ]
