-- ===== src/SignalArbitration.antt =====
-- services/signal_arbitration/rules.py: which of a company's signals is the primary one.
pub mod Calibration
pub mod Conflicts
pub mod Decision
