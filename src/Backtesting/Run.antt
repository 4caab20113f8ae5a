-- ===== src/Backtesting/Run.antt =====
-- The whole of `run_backtest_simulation`: the window, the loop, the benchmarks and the summary.
pub mod Results
use ai_native_hedge_fund_ch.Prelude.{
  ℕ, String, Bool, true, false, Option, none, some, List, [], ◌∷◌, ◌++◌, ◌&&◌, not, filter,
  is_empty, length, leb, ltb, Result, ok, err, raise_if, ◌>>◌, ◌>>=◌, if◌then◌else◌,
}
use ai_native_hedge_fund_ch.Prelude.Int.{ℤ, pos}
use ai_native_hedge_fund_ch.PyFloat.{Float}
use ai_native_hedge_fund_ch.Timing.Calendar.{Zone}
use ai_native_hedge_fund_ch.Backtesting.Signals.{is_timing_safe, record_anomalies}
use ai_native_hedge_fund_ch.Backtesting.Simulation.{
  SyntheticDailyPriceBar, BacktestConfig, LoadedBacktestInputs, DecisionAction, Simulation,
  StrategyDecision, SimulationEvent, fill, run_started, run_completed, benchmark_mark,
  unfilled_event, simulate_bars,
}

pub record BenchmarkReference (F : Type 0) : Type 0 where
  pub benchmark_name : String
  pub starting_value : F
  pub ending_value : F
  pub simple_return : F

pub record PerformanceSummary (F : Type 0) : Type 0 where
  pub starting_cash : F
  pub ending_cash : F
  pub gross_pnl : F
  pub net_pnl : F
  pub trade_count : ℕ
  pub turnover_notional : F

pub record BacktestComputationResult (F : Type 0) : Type 0 where
  pub strategy_decisions : List StrategyDecision
  pub simulation_events : List (SimulationEvent F)
  pub performance_summary : PerformanceSummary F
  pub benchmark_references : List (BenchmarkReference F)
  pub timing_anomalies : List String

module _ {F : Type 0} where
  -- `_bars_in_window`
  unfoldable pub bars_in_window :
      LoadedBacktestInputs F → BacktestConfig F → Result (List (SyntheticDailyPriceBar F))
  bars_in_window inputs config =
      let bars =
        filter (λ bar. leb config.test_start bar.date && leb bar.date config.test_end)
          inputs.bars in
      if ltb (length bars) 2
      then err "Backtesting requires at least two price bars inside the test window."
      else ok bars

  -- The bar at the index, or the last one past the end, from a first bar on.
  abbrev pub bar_at_or_last :
      ℕ → SyntheticDailyPriceBar F → List (SyntheticDailyPriceBar F) → SyntheticDailyPriceBar F
  bar_at_or_last index bar [] = bar
  bar_at_or_last ℕ.zero bar (next ∷ bars) = bar
  bar_at_or_last (ℕ.suc index) bar (next ∷ bars) = bar_at_or_last index next bars

  abbrev pub last_bar :
      SyntheticDailyPriceBar F → List (SyntheticDailyPriceBar F) → SyntheticDailyPriceBar F
  last_bar bar [] = bar
  last_bar bar (next ∷ bars) = last_bar next bars

module _ {F : Type 0} (float : Float F) where
  -- A benchmark, whose values have to be positive.
  unfoldable pub benchmark_reference : String → F → F → Result (BenchmarkReference F)
  benchmark_reference name starting_value ending_value =
      raise_if (not (float.gt ending_value (float.of_int (pos 0)))) "ending_value"
      >> ok (record {
        benchmark_name = name;
        starting_value = starting_value;
        ending_value = ending_value;
        simple_return = float.divide (float.minus ending_value starting_value) starting_value;
      })

  -- `_build_benchmarks`: doing nothing, and one unit from the first executable bar on.
  unfoldable pub build_benchmarks :
      BacktestConfig F
      → SyntheticDailyPriceBar F
      → List (SyntheticDailyPriceBar F)
      → Result (List (BenchmarkReference F))
  unfolding benchmark_reference
  build_benchmarks config first rest =
      let executable = bar_at_or_last config.execution_assumption.execution_lag_bars first rest in
      let move = float.minus (last_bar first rest).close_price executable.open_price in
      do
        flat ← benchmark_reference "Flat Baseline" config.starting_cash config.starting_cash
        held ←
            benchmark_reference "Buy And Hold" config.starting_cash
              (float.plus config.starting_cash move)
        ok (flat ∷ held ∷ [])

  -- The account before the first bar.
  unfoldable pub opening : BacktestConfig F → SyntheticDailyPriceBar F → Simulation F
  opening config first = record {
    current_units = pos 0;
    cash = config.starting_cash;
    total_costs = float.of_int (pos 0);
    turnover_notional = float.of_int (pos 0);
    trade_count = 0;
    pending_fills = [];
    decisions = [];
    events =
        unfilled_event float run_started none first.timestamp (pos 0) first.open_price (pos 0) ∷ [];
  }

  unfoldable pub summary_of : BacktestConfig F → F → Simulation F → PerformanceSummary F
  summary_of config last_close state =
      let ending_value =
        float.plus state.cash (float.times (float.of_int state.current_units) last_close) in
      record {
        starting_cash = config.starting_cash;
        ending_cash = ending_value;
        gross_pnl = float.minus (float.plus ending_value state.total_costs) config.starting_cash;
        net_pnl = float.minus ending_value config.starting_cash;
        trade_count = state.trade_count;
        turnover_notional = state.turnover_notional;
      }

  unfoldable pub benchmark_events : ℕ → List (BenchmarkReference F) → List (SimulationEvent F)
  benchmark_events event_time [] = []
  benchmark_events event_time (benchmark ∷ benchmarks) =
      record {
        event_type = benchmark_mark;
        strategy_decision_id = none;
        event_time = event_time;
        quantity = none;
        price = benchmark.ending_value;
        transaction_cost_applied = float.of_int (pos 0);
        slippage_applied = float.of_int (pos 0);
        cash_delta = float.of_int (pos 0);
        position_after_units = none;
      }
      ∷ benchmark_events event_time benchmarks

module _ {F : Type 0} (float : Float F) (zone : Zone) (inputs : LoadedBacktestInputs F)
    (config : BacktestConfig F)
    (make_decision_id : ℕ → Option String → DecisionAction → String) where
  -- The account after the last bar.
  unfoldable pub final_state :
      SyntheticDailyPriceBar F → List (SyntheticDailyPriceBar F) → Simulation F
  unfolding opening simulate_bars
  final_state first rest =
      simulate_bars float zone inputs config make_decision_id (length (first ∷ rest)) 0
        (first ∷ rest) (opening float config first)

  -- Some signal has to have an availability window, if there are any signals.
  unfoldable pub establish_timing : Result (Unit {0})
  establish_timing =
      let allowlist = config.signal_status_allowlist in
      raise_if
        (not (is_empty inputs.signals)
          && is_empty (filter (is_timing_safe inputs.sources allowlist none) inputs.signals))
        "Backtest run could not establish timing-safe availability for any candidate signals."

  unfoldable pub simulate_window :
      List (SyntheticDailyPriceBar F) → Result (BacktestComputationResult F)
  unfolding establish_timing final_state build_benchmarks summary_of benchmark_events
      record_anomalies
  simulate_window [] = err "no bars"
  simulate_window (first ∷ rest) =
      let state = final_state first rest in
      let last = last_bar first rest in
      let allowlist = config.signal_status_allowlist in
      establish_timing >> do
        benchmarks ← build_benchmarks float config first rest
        ok (record {
          strategy_decisions = state.decisions;
          simulation_events =
              state.events
              ++ (benchmark_events float last.timestamp benchmarks
                  ++ unfilled_event float run_completed none last.timestamp state.current_units
                      last.close_price state.current_units
                    ∷ []);
          performance_summary = summary_of float config last.close_price state;
          benchmark_references = benchmarks;
          timing_anomalies = record_anomalies inputs.sources allowlist none [] inputs.signals;
        })

  unfoldable pub run_backtest_simulation : Result (BacktestComputationResult F)
  unfolding bars_in_window simulate_window
  run_backtest_simulation = do bars ← bars_in_window inputs config; simulate_window bars
