-- ===== src/Tests/Backtests.antt =====
-- The properties of the backtest on three bars and one signal.
use ai_native_hedge_fund_ch.Prelude.{
  ℕ, ◌+◌, ◌*◌, ◌≡◌, refl, String, Option, none, some, List, [], ◌∷◌, All, Result, ok, err,
  insert_by, sort_by, arith,
}
use ai_native_hedge_fund_ch.Prelude.Int.{pos, ◌+ℤ◌, ◌-ℤ◌, ◌*ℤ◌}
use ai_native_hedge_fund_ch.PyFloat.{Milli, milli}
use ai_native_hedge_fund_ch.Schemas.Enums.{SignalStatus, ResearchStance}
use ai_native_hedge_fund_ch.Timing.Calendar.{regular_session_bounds, open_time, close_time}
use ai_native_hedge_fund_ch.Timing.Availability.{
  market_data_close, is_available_by, build_decision_cutoff,
}
use ai_native_hedge_fund_ch.Backtesting.Signals.{
  ComparableSignal, research, unique, signal_feature_ids, features_of_sources, is_traceable,
  validate_comparable_signal, is_eligible, record_anomalies, comes_first,
  select_signal_for_decision,
}
use ai_native_hedge_fund_ch.Backtesting.Simulation.{
  SyntheticDailyPriceBar, BacktestConfig, LoadedBacktestInputs, DecisionAction,
  target_units_from_stance, action_for_target, pending_at, without, schedule, fill_event, settle,
  bar_session_open, settle_due, decide, record_decision, mark_to_market, simulate_bar,
  simulate_bars,
}
use ai_native_hedge_fund_ch.Backtesting.Simulation.Positions.{
  IsSound, units_filled, simulate_bars-IsSound,
}
use ai_native_hedge_fund_ch.Backtesting.Simulation.Settled.{orders}
use ai_native_hedge_fund_ch.Backtesting.Simulation.Replay.{replay}
use ai_native_hedge_fund_ch.Backtesting.Simulation.NoLookAhead.{IsInformed}
use ai_native_hedge_fund_ch.Backtesting.Run.{
  BacktestComputationResult, bars_in_window, benchmark_reference, build_benchmarks, opening,
  summary_of, last_bar, benchmark_events, final_state, establish_timing, simulate_window,
  run_backtest_simulation,
}
use ai_native_hedge_fund_ch.Backtesting.Run.Results.{
  summary_of_account, opening_account, run_no_look_ahead, run_orders_filled, run_replays,
}
use ai_native_hedge_fund_ch.Tests.Operations.{utc}

abbrev signal : ComparableSignal Milli
signal = record {
  signal_id = "signal";
  status = SignalStatus.candidate;
  stance = ResearchStance.positive;
  primary_score = pos 700;
  effective_at = 50;
  availability_window = some (record {
    available_from = 60;
    available_until = none;
    availability_basis = market_data_close;
    market_session = none;
  });
  lineage = research ("feature" ∷ []) ("link" ∷ []);
}

abbrev bar : ℕ → Milli → SyntheticDailyPriceBar Milli
bar day price = record {
  timestamp = day * 86400 + 75600;
  date = day;
  open_price = price;
  close_price = price;
}

abbrev inputs : LoadedBacktestInputs Milli
inputs = record {
  signals = signal ∷ [];
  sources = record { research_signals_by_id = λ id. none; features_by_id = λ id. some 40 };
  bars = bar 4 (pos 10000) ∷ bar 5 (pos 11000) ∷ bar 6 (pos 12000) ∷ [];
}

abbrev config : BacktestConfig Milli
config = record {
  test_start = 0;
  test_end = 10;
  signal_status_allowlist = SignalStatus.candidate ∷ [];
  starting_cash = pos 100000000;
  execution_assumption = record {
    transaction_cost_bps = pos 5000;
    slippage_bps = pos 2000;
    execution_lag_bars = 1;
    signal_availability_buffer_minutes = none;
  };
}

abbrev decision_id : ℕ → Option String → DecisionAction → String
decision_id time chosen action = "decision"

abbrev nothing : BacktestComputationResult Milli
nothing = record {
  strategy_decisions = [];
  simulation_events = [];
  performance_summary = record {
    starting_cash = pos 0;
    ending_cash = pos 0;
    gross_pnl = pos 0;
    net_pnl = pos 0;
    trade_count = 0;
    turnover_notional = pos 0;
  };
  benchmark_references = [];
  timing_anomalies = [];
}

abbrev result_or : Result (BacktestComputationResult Milli) → BacktestComputationResult Milli
result_or (ok r) = r
result_or (err message) = nothing

unfoldable result : BacktestComputationResult Milli
result = result_or (run_backtest_simulation milli utc inputs config decision_id)

-- The run finishes, with one trade.
finishes :
    (run_backtest_simulation milli utc inputs config decision_id ≡ ok result)
    × (result.performance_summary.trade_count ≡ 1)
unfolding result run_backtest_simulation simulate_window establish_timing final_state
    benchmark_events summary_of opening build_benchmarks benchmark_reference bars_in_window
    simulate_bars simulate_bar mark_to_market record_decision decide settle_due bar_session_open
    settle fill_event schedule without pending_at action_for_target target_units_from_stance
    select_signal_for_decision comes_first record_anomalies is_eligible validate_comparable_signal
    is_traceable signal_feature_ids features_of_sources unique build_decision_cutoff is_available_by
    regular_session_bounds open_time close_time insert_by sort_by milli ◌+ℤ◌ ◌-ℤ◌ ◌*ℤ◌
finishes = (refl, refl)

run_no_look_ahead_example :
    All (IsInformed milli utc inputs config decision_id) result.strategy_decisions
run_no_look_ahead_example = run_no_look_ahead milli utc inputs config decision_id finishes.0

run_orders_filled_example :
    result.performance_summary.trade_count ≡ orders result.strategy_decisions
run_orders_filled_example =
    run_orders_filled milli utc inputs config decision_id (omega arith) finishes.0

run_replays_example :
    (first : SyntheticDailyPriceBar Milli) × (rest : List (SyntheticDailyPriceBar Milli))
    × (bars_in_window inputs config ≡ ok (first ∷ rest))
    × (result.performance_summary
        ≡ summary_of_account milli config
            (last_bar first rest).close_price
            (replay milli (opening_account milli config) result.simulation_events))
run_replays_example = run_replays milli utc inputs config decision_id finishes.0

start : IsSound (opening milli config (bar 4 (pos 10000)))
unfolding opening units_filled ◌+ℤ◌
start = record { position = omega arith; scheduled = tt; decided = tt; summed = refl }

simulate_bars-IsSound_example : IsSound (
    simulate_bars milli utc inputs config decision_id 3 0 inputs.bars
      (opening milli config (bar 4 (pos 10000))))
simulate_bars-IsSound_example =
    simulate_bars-IsSound milli utc inputs config decision_id 3 0 inputs.bars _ start
