-- ===== src/Tests.antt =====
-- Runs of the model on concrete inputs: the theorems applied to them.
mod Fleet
mod Claims
mod Workers
mod Placements
mod Presences
mod Dispatches
mod Registrations
mod Reports
mod Scans
mod Supervision
mod Failures
