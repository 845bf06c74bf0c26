-- ===== src/Tests.antt =====
-- Runs on concrete inputs: each statement about the code at values where its conditions hold.
mod Fixtures
mod Policy
mod Contracts
mod Ledger
mod Requirements
mod Stores
mod Operator
mod Gateway
mod Verdicts
mod Corrections
mod Checker
