-- ===== src/Orchestration.antt =====
-- services/daily_orchestration: the daily workflow, its steps, its retries and its outcome.
pub mod Steps
pub mod Workflow
pub mod Registry
