-- ===== src/Portfolio.antt =====
-- services/portfolio: from signals to a reviewable proposal under hard limits.
pub mod Inputs
pub mod Exposure
pub mod Limits
pub mod Intake
pub mod Ranking
pub mod Decisions
pub mod Sizing
pub mod Proposal
pub mod Selection
