-- ===== src/Tests.antt =====
-- Runs of the models on concrete inputs, and an instance of every theorem that has a condition.
mod Pattern
mod Ledger
mod Calls
mod Gate
mod Drift
mod Events
mod Errors
mod Memory
mod Queue
mod Manifest
mod Input
mod Intercept
mod Anchors
mod TrustGate
