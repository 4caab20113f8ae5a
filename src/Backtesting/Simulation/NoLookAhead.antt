-- ===== src/Backtesting/Simulation/NoLookAhead.antt =====
-- No decision of a backtest reads a signal that was not available when it was made.
use ai_native_hedge_fund_ch.Prelude.{
  ℕ, ◌+◌, ◌≡◌, refl, String, Option, none, some, List, [], ◌∷◌, ◌⊎◌, inl, inr, All, All-append,
  Option-cases,
}
use ai_native_hedge_fund_ch.Prelude.Int.{ℤ}
use ai_native_hedge_fund_ch.PyFloat.{Float}
use ai_native_hedge_fund_ch.Timing.Calendar.{Zone}
use ai_native_hedge_fund_ch.Timing.Availability.{build_decision_cutoff}
use ai_native_hedge_fund_ch.Backtesting.Signals.{ComparableSignal}
use ai_native_hedge_fund_ch.Backtesting.Signals.Visible.{WasKnown, select-WasKnown}
use ai_native_hedge_fund_ch.Backtesting.Simulation.{
  SyntheticDailyPriceBar, BacktestConfig, LoadedBacktestInputs, DecisionAction, Simulation,
  StrategyDecision, settle, settle_due, decide, record_decision, mark_to_market, simulate_bar,
  simulate_bars, selected_at, cutoff_of,
}
use ai_native_hedge_fund_ch.Backtesting.Simulation.Pending.{settle_due-cases}

module _ {F : Type 0} (float : Float F) (zone : Zone) (inputs : LoadedBacktestInputs F)
    (config : BacktestConfig F)
    (make_decision_id : ℕ → Option String → DecisionAction → String) where
  -- The signal was known at the cutoff that belongs to the time.
  abbrev pub WasKnownAt : ℕ → ComparableSignal F → Type 0
  WasKnownAt time signal =
      WasKnown inputs.sources config.signal_status_allowlist
        config.execution_assumption.signal_availability_buffer_minutes inputs.signals
        (build_decision_cutoff zone time []) signal

  -- The decision names no signal, or one that was known at the time of the decision.
  abbrev pub IsInformed : StrategyDecision → Type 0
  IsInformed made =
      (made.signal_id ≡ none)
      ⊎ ((signal : ComparableSignal F) × (made.signal_id ≡ some signal.signal_id)
          × WasKnownAt made.decision_time signal)

  decide-IsInformed :
      (bar_count index : ℕ) (bar : SyntheticDailyPriceBar F) (units : ℤ)
      → IsInformed (decide float zone inputs config make_decision_id bar_count index bar units)
  unfolding decide
  decide-IsInformed bar_count index bar units =
      elim (Option-cases (selected_at float zone inputs config make_decision_id bar)) [
        | inl nobody ↦ inl (rw nobody refl)
        | inr (signal, chosen) ↦ inr (
          signal,
          rw chosen refl,
          select-WasKnown inputs.sources config.signal_status_allowlist
              config.execution_assumption.signal_availability_buffer_minutes inputs.signals
              (cutoff_of float zone inputs config make_decision_id bar) float chosen,
        )
      ]

  abbrev AllInformed : Simulation F → Type 0
  AllInformed state = All IsInformed state.decisions

  settle_due-AllInformed :
      (index : ℕ) (bar : SyntheticDailyPriceBar F) (state : Simulation F)
      → AllInformed state
      → AllInformed (settle_due float zone inputs config make_decision_id index bar state)
  unfolding settle
  settle_due-AllInformed index bar state h =
      settle_due-cases float zone inputs config make_decision_id AllInformed index bar state
        (λ idle. h) (λ pending_fill due. h)

  simulate_bar-AllInformed :
      (bar_count index : ℕ) (bar : SyntheticDailyPriceBar F) (state : Simulation F)
      → AllInformed state
      → AllInformed
          (simulate_bar float zone inputs config make_decision_id bar_count index bar state)
  unfolding simulate_bar record_decision mark_to_market
  simulate_bar-AllInformed bar_count index bar state h =
      All-append IsInformed _ _ (settle_due-AllInformed index bar state h) (
        decide-IsInformed bar_count index bar
            (settle_due float zone inputs config make_decision_id index bar state).current_units,
        tt,
      )

  -- After any further bars, every decision is informed if those before were.
  pub simulate_bars-AllInformed :
      (bar_count index : ℕ) (bars : List (SyntheticDailyPriceBar F)) (state : Simulation F)
      → AllInformed state
      → AllInformed
          (simulate_bars float zone inputs config make_decision_id bar_count index bars state)
  unfolding simulate_bars
  simulate_bars-AllInformed bar_count index [] state h = h
  simulate_bars-AllInformed bar_count index (bar ∷ bars) state h =
      simulate_bars-AllInformed bar_count (index + 1) bars _
        (simulate_bar-AllInformed bar_count index bar state h)
