-- ===== src/PaperLedger.antt =====
-- services/paper_ledger/service.py: approved paper trades as positions with a life of their own.
pub mod Records
pub mod Lifecycle
pub mod Operations
pub mod Daily
