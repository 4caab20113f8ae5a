-- ===== src/Backtesting/Run/Results.antt =====
-- What a result of `run_backtest_simulation` says of the run.
use ai_native_hedge_fund_ch.Prelude.{
  ℕ, ◌≤◌, ◌≡◌, refl, sym, ap, ◌∙◌, String, Option, none, List, [], ◌∷◌, ◌++◌, All, length, ok,
  ok_injective, >>=-eq-ok,
}
use ai_native_hedge_fund_ch.Prelude.Int.{pos}
use ai_native_hedge_fund_ch.PyFloat.{Float}
use ai_native_hedge_fund_ch.Timing.Calendar.{Zone}
use ai_native_hedge_fund_ch.Backtesting.Simulation.{
  SyntheticDailyPriceBar, BacktestConfig, LoadedBacktestInputs, DecisionAction, Simulation,
  SimulationEvent, run_completed, unfilled_event,
}
use ai_native_hedge_fund_ch.Backtesting.Simulation.Replay.{
  Account, account_of, replay, replay-append, simulate_bars-IsLogged,
}
use ai_native_hedge_fund_ch.Backtesting.Simulation.Settled.{orders, every_order_filled}
use ai_native_hedge_fund_ch.Backtesting.Simulation.NoLookAhead.{
  IsInformed, simulate_bars-AllInformed,
}
use ai_native_hedge_fund_ch.Backtesting.Run.{
  BenchmarkReference, PerformanceSummary, BacktestComputationResult, bars_in_window, last_bar,
  build_benchmarks, opening, summary_of, benchmark_events, final_state, establish_timing,
  simulate_window, run_backtest_simulation,
}

module _ {F : Type 0} (float : Float F) where
  -- The summary that an account gives, marked at the last close.
  abbrev pub summary_of_account : BacktestConfig F → F → Account F → PerformanceSummary F
  summary_of_account config last_close account =
      let ending_value =
        float.plus account.cash (float.times (float.of_int account.units) last_close) in
      record {
        starting_cash = config.starting_cash;
        ending_cash = ending_value;
        gross_pnl = float.minus (float.plus ending_value account.costs) config.starting_cash;
        net_pnl = float.minus ending_value config.starting_cash;
        trade_count = account.trades;
        turnover_notional = account.turnover;
      }

  -- The starting cash, and nothing else.
  abbrev pub opening_account : BacktestConfig F → Account F
  opening_account config = record {
    units = pos 0;
    cash = config.starting_cash;
    costs = float.of_int (pos 0);
    turnover = float.of_int (pos 0);
    trades = 0;
  }

  replay-benchmark_events :
      (account : Account F) (event_time : ℕ) (benchmarks : List (BenchmarkReference F))
      → (rest : List (SimulationEvent F))
      → replay float account (benchmark_events float event_time benchmarks ++ rest)
        ≡ replay float account rest
  unfolding replay benchmark_events
  replay-benchmark_events account event_time [] rest = refl
  replay-benchmark_events account event_time (b ∷ benchmarks) rest =
      replay-benchmark_events account event_time benchmarks rest

  -- What is logged after the loop changes no account.
  replay_closing :
      (start : Account F) (state : Simulation F) (event_time : ℕ)
      → (benchmarks : List (BenchmarkReference F)) (closing : SimulationEvent F)
      → closing.event_type ≡ run_completed
      → replay float start state.events ≡ account_of state
      → replay float start
          (state.events ++ (benchmark_events float event_time benchmarks ++ closing ∷ []))
        ≡ account_of state
  unfolding replay
  replay_closing start state event_time benchmarks closing completed logged =
      let tail = benchmark_events float event_time benchmarks ++ closing ∷ [] in
      replay-append float start state.events tail
      ∙ (ap (λ a. replay float a tail) logged
          ∙ (replay-benchmark_events (account_of state) event_time benchmarks (closing ∷ [])
              ∙ rw completed refl))

module _ {F : Type 0} (float : Float F) (zone : Zone) (inputs : LoadedBacktestInputs F)
    (config : BacktestConfig F)
    (make_decision_id : ℕ → Option String → DecisionAction → String) where
  -- A result comes of the loop over the bars of the window.
  record IsResult (r : BacktestComputationResult F) : Type 0 where
    pub first : SyntheticDailyPriceBar F
    pub rest : List (SyntheticDailyPriceBar F)
    pub in_window : bars_in_window inputs config ≡ ok (first ∷ rest)
    pub benchmarks : List (BenchmarkReference F)
    pub decisions :
        r.strategy_decisions
        ≡ (final_state float zone inputs config make_decision_id first rest).decisions
    pub summary :
        r.performance_summary
        ≡ summary_of float config
            (last_bar first rest).close_price
            (final_state float zone inputs config make_decision_id first rest)
    pub events :
        let last = last_bar first rest in
        let state = final_state float zone inputs config make_decision_id first rest in
        r.simulation_events
        ≡ state.events
          ++ (benchmark_events float last.timestamp benchmarks
              ++ unfilled_event float run_completed none last.timestamp state.current_units
                  last.close_price state.current_units
                ∷ [])

  window-IsResult :
      (bars : List (SyntheticDailyPriceBar F)) {r : BacktestComputationResult F}
      → bars_in_window inputs config ≡ ok bars
      → simulate_window float zone inputs config make_decision_id bars ≡ ok r
      → IsResult r
  unfolding simulate_window
  window-IsResult [] found h = absurd (cc)
  window-IsResult (first ∷ rest) {r} found h =
      let (checked, passed, then_) =
        >>=-eq-ok (establish_timing float zone inputs config make_decision_id) _ h in
      let (benchmarks, built, done) =
        >>=-eq-ok (build_benchmarks float config first rest) _ then_ in
      let same = ok_injective done in
      record {
        first = first;
        rest = rest;
        in_window = found;
        benchmarks = benchmarks;
        decisions = ap (λ x. x.strategy_decisions) (sym same);
        summary = ap (λ x. x.performance_summary) (sym same);
        events = ap (λ x. x.simulation_events) (sym same);
      }

  run-IsResult :
      {r : BacktestComputationResult F}
      → run_backtest_simulation float zone inputs config make_decision_id ≡ ok r
      → IsResult r
  unfolding run_backtest_simulation
  run-IsResult h =
      let (bars, found, rest) = >>=-eq-ok (bars_in_window inputs config) _ h in
      window-IsResult bars found rest

  -- If the run returns a result, then every decision in it names no signal, or a loaded signal with
  -- an allowed status that had become available by the time of the decision, the buffer included,
  -- with a complete lineage whose features all had known values at that time.
  pub run_no_look_ahead :
      {r : BacktestComputationResult F}
      → run_backtest_simulation float zone inputs config make_decision_id ≡ ok r
      → All (IsInformed float zone inputs config make_decision_id) r.strategy_decisions
  unfolding final_state opening
  run_no_look_ahead {r} h =
      let run = run-IsResult h in
      rw run.decisions (
        simulate_bars-AllInformed float zone inputs config make_decision_id
          (length (run.first ∷ run.rest)) 0 (run.first ∷ run.rest) (opening float config run.first)
          tt)

  -- If the run returns a result and the execution lag is at least one bar, then the number of trades
  -- in the performance summary is the number of decisions that asked for another position: each of
  -- them has been filled by the end of the run.
  pub run_orders_filled :
      {r : BacktestComputationResult F}
      → 1 ≤ config.execution_assumption.execution_lag_bars
      → run_backtest_simulation float zone inputs config make_decision_id ≡ ok r
      → r.performance_summary.trade_count ≡ orders r.strategy_decisions
  unfolding final_state opening summary_of
  run_orders_filled {r} positive h =
      let run = run-IsResult h in
      let filled =
        every_order_filled float zone inputs config make_decision_id (run.first ∷ run.rest)
          (opening float config run.first) positive refl refl refl in
      ap (λ s. s.trade_count) run.summary ∙ (filled.1 ∙ ap orders (sym run.decisions))

  -- If the run returns a result, then its performance summary is the one that its event log gives:
  -- the log is replayed from the starting cash, and the account is marked at the close of the last
  -- bar of the window.
  pub run_replays :
      {r : BacktestComputationResult F}
      → run_backtest_simulation float zone inputs config make_decision_id ≡ ok r
      → (first : SyntheticDailyPriceBar F) × (rest : List (SyntheticDailyPriceBar F))
        × (bars_in_window inputs config ≡ ok (first ∷ rest))
        × (r.performance_summary
            ≡ summary_of_account float config
                (last_bar first rest).close_price
                (replay float (opening_account float config) r.simulation_events))
  unfolding final_state opening summary_of replay
  run_replays {r} h =
      let run = run-IsResult h in
      let bars = run.first ∷ run.rest in
      let last = last_bar run.first run.rest in
      let start = opening float config run.first in
      let state = final_state float zone inputs config make_decision_id run.first run.rest in
      let logged : replay float (opening_account float config) state.events ≡ account_of state =
        simulate_bars-IsLogged float zone inputs config make_decision_id
          (opening_account float config) (length bars) 0 bars start refl in
      let replayed =
        ap (replay float (opening_account float config)) run.events
        ∙ replay_closing float (opening_account float config) state last.timestamp run.benchmarks
            (unfilled_event float run_completed none last.timestamp state.current_units
              last.close_price state.current_units)
            refl logged in
      (
        run.first,
        run.rest,
        run.in_window,
        run.summary
            ∙ ap (summary_of_account float config (last_bar run.first run.rest).close_price)
                (sym replayed),
      )
