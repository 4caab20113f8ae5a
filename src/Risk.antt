-- ===== src/Risk.antt =====
-- services/risk_engine/rules.py: the risk review of a proposal and of its position ideas.
pub mod Checks
pub mod Ideas
pub mod Proposal
pub mod Review
