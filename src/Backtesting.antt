-- ===== src/Backtesting.antt =====
-- services/backtesting/simulation.py: the exploratory backtest over daily bars.
pub mod Signals
pub mod Simulation
pub mod Run
