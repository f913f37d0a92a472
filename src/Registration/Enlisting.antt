-- ===== src/Registration/Enlisting.antt =====
-- Who is admitted as a worker, and what a registration cannot change.
use urth.Prelude.{
  suc, String, Bool, true, false, ◌||◌, ◌≡◌, ◌<◌, refl, sym, ap, ◌∙◌, ◌⊎◌, inl, inr, none, some,
  Option, arith, Bool-cases, Option-cases,
}
use mathlib.Core.Option.{some-injective}
use mathlib.Core.Path.{subst}
use urth.Types.{Labels, Worker, WorkerStatus, Runner}
use urth.Store.{Database, Write-cases, or_else}
use urth.Claim.Checks.{Fetch-cases}
use urth.Registration.{
  over_status, stored_worker, Enrolment, Gate, Enlistment, AdmitError, Admitted, refused, admitted,
  has_room, refreshed, recruit, enlist, match_runner, admit_worker,
}

or_else_same {ℓ} : {A : Type ℓ} (o : Option A) → or_else o o ≡ o
or_else_same none = refl
or_else_same (some a) = refl

or_same : (b : Bool) → (b || b) ≡ b
or_same true = refl
or_same false = refl

over_status_same : (s : WorkerStatus) → over_status s s ≡ s
over_status_same s i = record {
  is_paused = or_same s.is_paused i;
  last_seen_time = or_else_same s.last_seen_time i;
  last_seen_via = or_else_same s.last_seen_via i;
  nats_last_seen_time = or_else_same s.nats_last_seen_time i;
  left_at = or_else_same s.left_at i;
}

module _ (db : Database) (enrolment : Enrolment db) (gate : Gate) where
  open db use {State, worker_row, runner_row, get_runner, get_runner_reads, merge_labels}
  open enrolment use {
    instance_named, number_instances, update_worker, create_worker, instance_named_row,
    update_worker_applied, update_worker_rejected, create_worker_row,
  }
  open gate use {parse_token, parse_selector}

  -- A worker that was registered before, under its name with this runner: the row keeps its UID,
  -- its status and its runner.
  abbrev pub IsRefreshed : State → State → Enlistment → Runner → Worker → Type 0
  IsRefreshed s s' e runner worker =
      (w : Worker) × (row : Worker) × (instance_named s runner.uid e.name ≡ some w)
      × (worker.uid ≡ w.uid)
      × (worker_row s' w.uid ≡ some row)
      × (row.status ≡ w.status)
      × (worker.runner_id ≡ runner.uid)

  -- A new worker of a runner that has room.
  abbrev pub IsRecruited : State → State → Enlistment → Runner → Worker → Type 0
  IsRecruited s s' e runner worker =
      (instance_named s runner.uid e.name ≡ none)
      × ((runner.max_instances ≡ 0) ⊎ (number_instances s runner.uid < runner.max_instances))
      × (worker_row s worker.uid ≡ none)
      × (worker_row s' worker.uid ≡ some worker)
      × (worker.runner_id ≡ runner.uid)

  enlist-outcome :
      (s : State) (e : Enlistment) (runner : Runner)
      → ((enlist db enrolment gate s e runner).0 ≡ s)
          × ((why : AdmitError) × ((enlist db enrolment gate s e runner).1 ≡ refused why))
        ⊎ ((worker : Worker) × ((enlist db enrolment gate s e runner).1 ≡ admitted (runner, worker))
            × (IsRefreshed s (enlist db enrolment gate s e runner).0 e runner worker
                ⊎ IsRecruited s (enlist db enrolment gate s e runner).0 e runner worker))
  unfolding enlist
  enlist-outcome s e runner = elim (Option-cases (instance_named s runner.uid e.name)) [
    | inr (w, i) ↦
        let f = refreshed db enrolment gate w e runner in
        let (row, named, own) = instance_named_row s runner.uid e.name w i in
        elim (Write-cases (update_worker s f w.version).1) [
          | inl x ↦ inl (rw (i, enlist) (rw x (refl, (_, refl))))
          | inr (inl x) ↦ inr (
            f,
            rw (i, enlist) (rw x refl),
            inl (
              w,
              w,
              i,
              refl,
              rw (i, enlist) (rw x (update_worker_rejected s f w.version w.uid x ∙ row)),
              refl,
              own,
            ),
          )
          | inr (inr (v, x)) ↦
              let (r, at, same_version, after) = update_worker_applied s f w.version v x in
              let same : r ≡ w = some-injective _ _ (sym at ∙ row) in
              inr (
                f,
                rw (i, enlist) (rw x refl),
                inl (
                  w,
                  stored_worker r f (suc w.version),
                  i,
                  refl,
                  rw (i, enlist) (rw x after),
                  subst (λ q. over_status q.status w.status ≡ w.status) (sym same)
                      (over_status_same w.status),
                  own,
                ),
              )
        ]
    | inl i ↦ elim (Bool-cases (has_room runner (number_instances s runner.uid))) [
      | inr full ↦ inl (rw (i, enlist) (rw full (refl, (_, refl))))
      | inl room ↦ elim (Option-cases (create_worker s (recruit db enrolment gate e runner))) [
        | inl c ↦ inl (rw (i, enlist) (rw room (rw c (refl, (_, refl)))))
        | inr (made, c) ↦
            let (absent, there, keeps) = create_worker_row s _ made c in
            inr (
              made.1,
              rw (i, enlist) (rw room (rw c refl)),
              inr (
                i,
                ground arith,
                absent,
                rw (i, enlist) (rw room (rw c there)),
                ap (λ x. x.runner_id) keeps,
              ),
            )
      ]
    ]
  ]

  abbrev Answer : Type 0
  Answer = State × Admitted (Runner × Worker)

  abbrev pub IsTurnedAway : State → Answer → Type 0
  IsTurnedAway s (s', answer) = (s' ≡ s) × ((why : AdmitError) × (answer ≡ refused why))

  abbrev pub IsEnlisted : State → Enlistment → Runner → Answer → Type 0
  IsEnlisted s e runner (s', answer) =
      (worker : Worker) × (answer ≡ admitted (runner, worker))
      × (IsRefreshed s s' e runner worker ⊎ IsRecruited s s' e runner worker)

  -- What a runner and a manifest have to be for a worker of it.
  abbrev pub Suits : Option Enlistment → Runner → Enlistment → Type 0
  Suits enlistment runner e =
      (enlistment ≡ some e)
      × ((matches : Labels → Bool) × (parse_selector runner.requirements ≡ some matches)
          × (matches e.labels ≡ true))

  match_runner-outcome :
      (s : State) (enlistment : Option Enlistment) (runner : Runner)
      → IsTurnedAway s (match_runner db enrolment gate s enlistment runner)
        ⊎ ((e : Enlistment) × Suits enlistment runner e
            × IsEnlisted s e runner (match_runner db enrolment gate s enlistment runner))
  unfolding match_runner
  match_runner-outcome s none runner = inl (refl, (_, refl))
  match_runner-outcome s (some e) runner =
      elim (Option-cases (parse_selector runner.requirements)) [
        | inl p ↦ inl (rw (p, match_runner) (refl, (_, refl)))
        | inr (matches, p) ↦ elim (Bool-cases (matches e.labels)) [
          | inr bad ↦ inl (rw (p, match_runner) (rw bad (refl, (_, refl))))
          | inl good ↦
              rw (p, match_runner)
                (rw good (elim (enlist-outcome s e runner) [
                  | inl away ↦ inl away
                  | inr joined ↦ inr (e, (refl, (matches, refl, good)), joined)
                ]))
        ]
      ]

  -- A registration changes nothing and is refused, unless its token is good for an active runner, the
  -- manifest is a worker's, and its labels match the requirements of that runner. Then the answer is
  -- that runner and the worker: either one that the runner had under this name, which keeps its UID,
  -- and whose row keeps its status, or a new row, made while the runner had room for another worker.
  pub admit_worker-IsEnlisted :
      (s : State) (token : String) (enlistment : Option Enlistment)
      → IsTurnedAway s (admit_worker db enrolment gate s token enlistment)
        ⊎ ((subject : String) × (runner : Runner) × (e : Enlistment) × (parse_token token
              ≡ some subject)
            × (runner_row s subject ≡ some runner)
            × (runner.is_active ≡ true)
            × Suits enlistment runner e
            × IsEnlisted s e runner (admit_worker db enrolment gate s token enlistment))
  unfolding admit_worker
  admit_worker-IsEnlisted s token enlistment = elim (Option-cases (parse_token token)) [
    | inl p ↦ inl (rw (p, admit_worker) (refl, (_, refl)))
    | inr (subject, p) ↦ elim (Fetch-cases (get_runner s subject)) [
      | inl g ↦ inl (rw (p, admit_worker) (rw g (refl, (_, refl))))
      | inr (inl g) ↦ inl (rw (p, admit_worker) (rw g (refl, (_, refl))))
      | inr (inr (runner, g)) ↦
          let row : runner_row s subject ≡ some runner = rw g at (get_runner_reads s subject) in
          elim (Bool-cases runner.is_active) [
            | inr bad ↦ inl (rw (p, admit_worker) (rw g (rw bad (refl, (_, refl)))))
            | inl active ↦
                let same : admit_worker db enrolment gate s token enlistment
                    ≡ match_runner db enrolment gate s enlistment runner =
                  rw (p, admit_worker) (rw g (simp active)) in
                rw same (elim (match_runner-outcome s enlistment runner) [
                  | inl away ↦ inl away
                  | inr (e, suits, joined) ↦ inr (subject, runner, e, p, row, active, suits, joined)
                ])
          ]
    ]
  ]
