-- ===== src/Tests/Registrations.antt =====
-- The registration of a first worker with the runner of the small fleet.
use urth.Prelude.{
  String, true, false, ◌≡◌, ◌⊎◌, refl, Option, none, some, [], ◌=ₛ◌, if◌then◌else◌, pos, arith,
}
use mathlib.Core.Option.{some-injective}
use mathlib.Core.Path.{subst}
use urth.Types.{Worker, Runner}
use urth.Store.{failed_write}
use urth.Store.Memory.{memory, Tables, worker_at, read}
use urth.Registration.{
  Enrolment, Gate, Enlistment, admitted, admit_worker, match_runner, enlist, worker_labels,
}
use urth.Registration.Enlisting.{admit_worker-IsEnlisted, IsTurnedAway, Suits, IsEnlisted}
use urth.Tests.Fleet.{tables, waiting, runner, worker}

unfoldable hire : Tables → Worker → Option Worker → Option (Tables × Worker)
hire t e (some w) = none
hire t e none = some (
  record t {
    workers = λ u. if u =ₛ "w-9" then some (record e { uid = "w-9"; version = 1 }) else t.workers u;
  },
  record e { uid = "w-9"; version = 1 },
)

hire_row :
    (t : Tables) (e : Worker) (row : Option Worker) (made : Tables × Worker)
    → t.workers "w-9" ≡ row
    → hire t e row ≡ some made
    → (worker_at t made.1.uid ≡ none)
      × (worker_at made.0 made.1.uid ≡ some made.1)
      × (made.1 ≡ record e { uid = made.1.uid; version = made.1.version })
unfolding hire worker_at
hire_row t e (some w) made at h = absurd (ground arith)
hire_row t e none made at h =
    subst
      (λ m.
        (worker_at t m.1.uid ≡ none)
        × (worker_at m.0 m.1.uid ≡ some m.1)
        × (m.1 ≡ record e { uid = m.1.uid; version = m.1.version }))
      (some-injective _ _ h) (rw (worker_at, at) refl, refl, refl)

nobody :
    (t : Tables) (runner name : String) (w : Worker)
    → none ≡ some w
    → (worker_at t w.uid ≡ some w) × (w.name ≡ name) × (w.runner_id ≡ runner)
nobody t runner name w h = absurd (ground arith)

abbrev enrolment : Enrolment (memory false)
enrolment = record {
  instance_named = λ t runner name. none;
  number_instances = λ t runner. 0;
  update_worker = λ t e v. (t, failed_write);
  create_worker = λ t e. hire t e (t.workers "w-9");
  instance_named_row = nobody;
  update_worker_applied = λ t e v v' h. absurd (ground arith);
  update_worker_rejected = λ t e v uid h. refl;
  create_worker_row = λ t e made h. hire_row t e (t.workers "w-9") made refl h;
}

abbrev gate : Gate
gate = record {
  parse_token = λ token. if token =ₛ "token" then some "r-1" else none;
  parse_selector = λ text. some (λ labels. true);
  sign_session = λ runner worker ttl. some ("session-9", 2000);
  connection_info = λ runner. some "runs.east";
  session_ttl = pos 0;
}

abbrev enlistment : Enlistment
enlistment = record { name = "new"; labels = []; requested_ttl = pos 60 }

admit_worker-IsEnlisted_example :
    IsTurnedAway
      (memory false)
      enrolment
      gate
      (tables waiting)
      (admit_worker (memory false) enrolment gate (tables waiting) "token" (some enlistment))
    ⊎ ((subject : String) × (r : Runner) × (e : Enlistment) × (gate.parse_token "token"
          ≡ some subject)
        × ((tables waiting).runners subject ≡ some r)
        × (r.is_active ≡ true)
        × Suits (memory false) enrolment gate (some enlistment) r e
        × IsEnlisted
            (memory false)
            enrolment
            gate
            (tables waiting)
            e
            r
            (admit_worker (memory false) enrolment gate (tables waiting) "token" (some enlistment)))
admit_worker-IsEnlisted_example =
    admit_worker-IsEnlisted (memory false) enrolment gate (tables waiting) "token" (some enlistment)

admitted_here :
    (admit_worker (memory false) enrolment gate (tables waiting) "token" (some enlistment)).1
    ≡ admitted (
      runner,
      record {
        name = "new";
        uid = "w-9";
        version = 1;
        labels = worker_labels runner;
        runner_id = "r-1";
        status = (worker "w-1").status;
      },
    )
unfolding admit_worker match_runner enlist hire read
admitted_here = refl
