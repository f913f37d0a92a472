-- ===== src/Reconcile/Memory.antt =====
-- The whole-table questions of the reconciler, answered by a store in memory that is up: its tables
-- are maps, so the UIDs of their rows are listed.
use urth.Prelude.{
  String, false, ◌≡◌, refl, ap, ◌∙◌, Option, none, some, List, [], ◌∷◌, All, ◌=ₛ◌, ◌==◌,
  if◌then◌else◌, suc, Bool, inl, inr, Option-cases, arith,
}
use urth.Types.{Result, Worker}
use urth.Store.{Write, rejected, applied, failed_write}
use mathlib.Core.Option.{some-injective}
use mathlib.Core.Path.{subst}
use mathlib.Core.Logic.{◌≢◌}
use urth.Prelude.{ℕ}
use urth.Store.Memory.{Tables, memory, result_at, worker_at, result_at_uid, update, write}
use urth.Reconcile.{Scans}

unfoldable pub rows_at {ℓ} : {A : Type ℓ} → (String → Option A) → List String → List A
rows_at row [] = []
rows_at row (uid ∷ uids) =
    let rest = rows_at row uids in elim (row uid) [ none ↦ rest | some a ↦ a ∷ rest ]

unfoldable pub with_liveness : Option Result → Option (Result × Bool)
with_liveness none = none
with_liveness (some r) = some (r, false)

unfoldable pub delete : Tables → Worker → Tables × Write
delete t w = elim (worker_at t w.uid) [
  | none ↦ (t, rejected)
  | some row ↦
      if row.version == w.version
      then (
        record t { workers = λ uid. if uid =ₛ w.uid then none else t.workers uid },
        applied (suc w.version),
      )
      else (t, rejected)
]

pub rows_at-read :
    (t : Tables) (uids : List String)
    → All (λ r. result_at t r.uid ≡ some r) (rows_at (result_at t) uids)
unfolding rows_at
rows_at-read t [] = tt
rows_at-read t (uid ∷ uids) = elim (Option-cases (result_at t uid)) [
  | inl e ↦ rw (e, rows_at) (rows_at-read t uids)
  | inr (r, e) ↦
      rw (e, rows_at) (ap (result_at t) (result_at_uid t uid r e) ∙ e, rows_at-read t uids)
]

pub with_liveness_live :
    (row : Option Result) (r : Result) → row ≡ some r → with_liveness row ≡ some (r, false)
unfolding with_liveness
with_liveness_live row r h = rw h refl

pub delete_result :
    (t : Tables) (w : Worker) (uid : String) → result_at (delete t w).0 uid ≡ result_at t uid
unfolding delete result_at
delete_result t w uid = ground arith

abbrev pub scans_of : List String → List String → Scans (memory false)
scans_of runs workers = record {
  result_rows = λ t. some (rows_at (result_at t) runs);
  worker_rows = λ t. some (rows_at (worker_at t) workers);
  runner_rows = λ t. some [];
  any_result = λ t uid. with_liveness (result_at t uid);
  outbox_fails = λ t table. false;
  delete_worker = delete;
  result_rows_read = λ t rows h.
      subst (λ xs. All (λ r. result_at t r.uid ≡ some r) xs) (some-injective _ _ h)
        (rows_at-read t runs);
  any_result_live = λ t uid r h. with_liveness_live (result_at t uid) r h;
  delete_worker_result = delete_result;
}

pub update_never_fails : (t : Tables) (e : Result) (v : ℕ) → (update false t e v).1 ≢ failed_write
unfolding update write
update_never_fails t e v h = ground arith
