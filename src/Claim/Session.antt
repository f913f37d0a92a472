-- ===== src/Claim/Session.antt =====
-- Who is asking: `resolveSession` and `loadClaimant`.
use urth.Prelude.{String, not, ◌=ₛ◌}
use urth.Types.{Worker, Runner}
use urth.Store.{Database, Fetch, failed, missing, found}
use urth.Claim.Disposition.{
  ClaimDisposition, unavailable, forbidden, Answer, ok, err, ◌>>=◌, ◌>>◌, require,
}

-- `WorkerSessionClaims`.
pub record SessionClaims : Type 0 where
  pub worker_id : String
  pub runner_id : String

-- A failed read is `unavailable`, a missing row the given refusal.
abbrev pub loaded {ℓ} : {A : Type ℓ} → Fetch A → ClaimDisposition → Answer A
loaded failed d = err unavailable
loaded missing d = err d
loaded (found a) d = ok a

module _ (db : Database) where
  open db use {State, get_worker, get_runner}

  unfoldable pub resolve_session : State → SessionClaims → Answer (Worker × Runner)
  resolve_session s claims = do
    worker ← loaded (get_worker s claims.worker_id) forbidden
    require (worker.runner_id =ₛ claims.runner_id) forbidden
    runner ← loaded (get_runner s worker.runner_id) forbidden
    ok (worker, runner)

  unfoldable pub load_claimant : State → SessionClaims → Answer (Worker × Runner)
  load_claimant s claims = do
    claimant ← resolve_session s claims
    require (not claimant.0.status.is_paused) forbidden
    require claimant.1.is_active forbidden
    ok claimant
