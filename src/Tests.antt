-- ===== src/Tests.antt =====
-- The test data, and the properties at concrete inputs.
mod Scenario
mod Runs
mod Construction
mod Reviewing
mod Operations
mod Visibility
mod Arbitration
mod Backtests
mod Ledger
mod Quality
