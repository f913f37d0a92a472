-- ===== src/Claim/Disposition.antt =====
-- Why a claim did not succeed, and the chains of checks that end in such a refusal.
use urth.Prelude.{Bool, if◌then◌else◌}

pub data ClaimDisposition : Type 0 where
  unavailable obsolete forbidden : ClaimDisposition

-- A Go pair `(value, error)` whose error is a `*ClaimError`, read through `ClaimDispositionOf`.
pub data Answer {ℓ} (A : Type ℓ) : Type ℓ where
  ok : A → Answer A
  err : ClaimDisposition → Answer A

-- A refusal ends the checks that would follow it.
infixl 5 ◌>>=◌ ◌>>◌
abbrev pub ◌>>=◌ {κ ℓ} : {Next : Type κ} {A : Type ℓ} → Answer A → (A → Answer Next) → Answer Next
answer >>= next = elim answer [ ok a ↦ next a | err refusal ↦ err refusal ]

abbrev pub ◌>>◌ {κ} : {Next : Type κ} → Answer (Unit {0}) → Answer Next → Answer Next
check >> next = elim check [ ok done ↦ next | err refusal ↦ err refusal ]

abbrev pub require : Bool → ClaimDisposition → Answer (Unit {0})
require holds refusal = if holds then ok tt else err refusal
