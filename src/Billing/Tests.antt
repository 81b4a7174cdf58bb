-- ===== src/Billing/Tests.antt =====
-- Runs of the billing service at concrete inputs.
mod Memory
mod Coding
mod Sample
mod Runs
mod Visits
