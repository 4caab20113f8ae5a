-- ===== src/Lib.antt =====
-- A verification library for the AI-native hedge fund: the path from research signals to paper trades.
--
-- The program loads signals with their evidence, constructs a portfolio proposal of at most one idea
-- per company, reviews it against hard risk rules, lets human reviewers decide on it, and turns an
-- approved proposal into paper trades that wait for another review. A daily workflow runs these
-- services as steps, and a market calendar says when information becomes usable.
--
-- The parts, with the files that model them:
-- - Prelude: the conditional, Boolean tests, lists, insertion-ordered dictionaries, exceptions as
--   values (`Result`) and signed integers over the native numbers.
-- - PyFloat: Python floats, as an interface of the operations that the code uses. Nothing is assumed
--   of them but what a theorem names: `IsExact`, a whole number from 1 up to `int(x)` is not above `x`,
--   and for the balance of the paper ledger `HasExactSums`, its sums and differences are not rounded.
--   `milli` is an instance in thousandths, on which the tests run.
-- - Schemas: the records, enums and validators of libraries/schemas/portfolio.py, base.py and
--   research.py.
-- - Portfolio: services/portfolio/construction.py. Inputs is what the loader hands over, Intake the
--   guards on each signal, Ranking the order of the candidates and its ties, Limits the hard limits,
--   Sizing one round of the loop, Selection the whole of `build_portfolio_selection`, Exposure and
--   Proposal the summary and the proposal.
-- - Risk: services/risk_engine/rules.py. Ideas and Proposal hold the rules, Review composes them as
--   `evaluate_portfolio_risk` does; each place that builds a check passes its status and its blocking
--   flag to `build_risk_check`.
-- - Review: libraries/utils/review_transitions.py, and histories of decisions.
-- - PaperExecution: services/paper_execution/service.py, `propose_trades`, on proposals as they are
--   (Gate) and after a review (Approval).
-- - DataQuality: services/data_quality, the rules and the final gate, in Proposals the gate of a
--   generated proposal, and in PaperTrades the gate that `propose_trades` calls before and after it
--   builds the trades.
-- - PortfolioWorkflow: services/portfolio/service.py, `run_portfolio_workflow`, which joins the
--   construction, the exposures, the proposal and the risk review.
-- - SignalArbitration: services/signal_arbitration/rules.py, composed as `run_signal_arbitration` of
--   service.py does. Calibration excludes signals and makes candidates, Conflicts compares them,
--   Decision ranks them, suppresses duplicates and chooses the primary signal, which the ranking of
--   Portfolio reads (PortfolioWorkflow.Arbitrated).
-- - PaperLedger: services/paper_ledger/service.py and libraries/schemas/paper_ledger.py. Records holds
--   the records with their validators, Lifecycle what an event does, Operations the three operations on
--   a trade and its position, Daily the daily summary.
-- - Backtesting: services/backtesting/simulation.py. Signals is the selection of a signal for a
--   decision, Simulation the loop over the bars, Run the whole run.
-- - Orchestration: services/daily_orchestration, the loop over the steps with retries and failures.
--   Workflow.Progress is about the steps that run, Workflow.Clean about the executors' answers.
-- - Timing: services/timing. Calendar and NextOpen are calendar.py, Availability and PointInTime the
--   availability rules of service.py.
-- - Tests: test data, and each property at a concrete input.
--
-- Exceptions are the `err` of a result. Clock readings and time zones are arguments. Identifiers that
-- the code derives by SHA-256 come from a function that is an argument (`Identity`); where distinct
-- constraints must have distinct result identifiers, a theorem says so (`HasDistinctResults`).
--
-- The loop over candidates, the attempts of a step and the loop over steps are structural. The search
-- for the next open runs on fuel: the number of the last override's date and four more, which is
-- enough because past that date a week has at most two closed days in a row, and the day of the
-- timestamp may be over. The end of Python's calendar in the year 9999 is not modelled.
--
-- The loop of a backtest is structural in its bars. Its dictionary of pending fills is a list by bar
-- index. The test on timing-safe signals and the anomalies do not depend on the bar, so they are taken
-- once. A `SignalSources` holds what the run looks up: the features of a research signal, and the time
-- from which a feature is available.
--
-- Not modelled: texts of messages and notes, provenance, persistence, the executors of the daily steps,
-- the loader of the portfolio inputs, and the services that are arguments of the models (the
-- other gates of data quality, portfolio analysis, the realism bundle of a trade).
pub mod Prelude
pub mod PyFloat
pub mod Schemas
pub mod Portfolio
pub mod SignalArbitration
pub mod Backtesting
pub mod DataQuality
pub mod PaperLedger
pub mod Risk
pub mod Review
pub mod PaperExecution
pub mod Orchestration
pub mod Timing
pub mod PortfolioWorkflow
pub mod Tests
