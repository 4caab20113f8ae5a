-- ===== src/Backtesting/Simulation.antt =====
-- `run_backtest_simulation`: the bars one after the other, with fills that wait for a later bar.
pub mod Pending
pub mod Replay
pub mod Positions
pub mod NoLookAhead
pub mod Settled
use ai_native_hedge_fund_ch.Prelude.{
  ℕ, ◌+◌, String, Bool, true, false, Option, none, some, List, [], ◌∷◌, ◌++◌, ◌&&◌, not, filter,
  any, map, is_empty, length, leb, ltb, ◌==◌, Result, ok, err, raise_if, ◌>>◌, ◌>>=◌, if◌then◌else◌,
}
use ai_native_hedge_fund_ch.Prelude.Int.{ℤ, pos, negsuc, ◌-ℤ◌, eqb_ℤ, ltb_ℤ}
use ai_native_hedge_fund_ch.PyFloat.{Float}
use ai_native_hedge_fund_ch.Schemas.Enums.{SignalStatus, ResearchStance, positive, negative}
use ai_native_hedge_fund_ch.Timing.Calendar.{Zone, regular_session_bounds}
use ai_native_hedge_fund_ch.Timing.Availability.{DecisionCutoff, build_decision_cutoff}
use ai_native_hedge_fund_ch.Backtesting.Signals.{
  ComparableSignal, SignalSources, is_timing_safe, record_anomalies, select_signal_for_decision,
}

pub data DecisionAction : Type 0 where
  open_long open_short close_position hold_position hold_cash skip_signal : DecisionAction

pub data SimulationEventType : Type 0 where
  decision fill mark benchmark_mark run_started run_completed : SimulationEventType

-- `timestamp_dt`, and its date in the zone that the text gives.
pub record SyntheticDailyPriceBar (F : Type 0) : Type 0 where
  pub timestamp : ℕ
  pub date : ℕ
  pub open_price : F
  pub close_price : F

pub record ExecutionAssumption (F : Type 0) : Type 0 where
  pub transaction_cost_bps : F
  pub slippage_bps : F
  pub execution_lag_bars : ℕ
  pub signal_availability_buffer_minutes : Option ℕ

pub record BacktestConfig (F : Type 0) : Type 0 where
  pub test_start : ℕ
  pub test_end : ℕ
  pub signal_status_allowlist : List SignalStatus
  pub starting_cash : F
  pub execution_assumption : ExecutionAssumption F

pub record LoadedBacktestInputs (F : Type 0) : Type 0 where
  pub signals : List (ComparableSignal F)
  pub sources : SignalSources
  pub bars : List (SyntheticDailyPriceBar F)

pub record PendingFill : Type 0 where
  pub strategy_decision_id : String
  pub target_units : ℤ

pub record StrategyDecision : Type 0 where
  pub strategy_decision_id : String
  pub signal_id : Option String
  pub decision_time : ℕ
  pub signal_effective_at : Option ℕ
  pub action : DecisionAction
  pub target_units : ℤ

pub record SimulationEvent (F : Type 0) : Type 0 where
  pub event_type : SimulationEventType
  pub strategy_decision_id : Option String
  pub event_time : ℕ
  pub quantity : Option ℤ
  pub price : F
  pub transaction_cost_applied : F
  pub slippage_applied : F
  pub cash_delta : F
  pub position_after_units : Option ℤ

-- The account and the lists that the loop changes; `pending_fills` is the dictionary by bar index.
pub record Simulation (F : Type 0) : Type 0 where
  pub current_units : ℤ
  pub cash : F
  pub total_costs : F
  pub turnover_notional : F
  pub trade_count : ℕ
  pub pending_fills : List (ℕ × PendingFill)
  pub decisions : List StrategyDecision
  pub events : List (SimulationEvent F)

unfoldable pub target_units_from_stance : ResearchStance → ℤ
target_units_from_stance positive = pos 1
target_units_from_stance negative = negsuc 0
target_units_from_stance _ = pos 0

unfoldable pub action_for_target : ℤ → ℤ → DecisionAction
action_for_target current_units target_units =
    if eqb_ℤ target_units current_units
    then (if eqb_ℤ target_units (pos 0) then hold_cash else hold_position)
    else if eqb_ℤ target_units (pos 0)
    then close_position
    else if ltb_ℤ (pos 0) target_units
    then open_long
    else open_short

-- `pending_fills.get(index)`
unfoldable pub pending_at : ℕ → List (ℕ × PendingFill) → Option PendingFill
pending_at index [] = none
pending_at index (entry ∷ entries) =
    let rest = pending_at index entries in if entry.0 == index then some entry.1 else rest

-- `pending_fills.pop(index)`
unfoldable pub without : ℕ → List (ℕ × PendingFill) → List (ℕ × PendingFill)
without index pending = filter (λ entry. not (entry.0 == index)) pending

-- `pending_fills[index] = fill`
unfoldable pub schedule : ℕ → PendingFill → List (ℕ × PendingFill) → List (ℕ × PendingFill)
unfolding without
schedule index pending_fill pending = (index, pending_fill) ∷ without index pending

abbrev pub target_of_signal : {F : Type 0} → Option (ComparableSignal F) → ℤ
target_of_signal none = pos 0
target_of_signal (some signal) = target_units_from_stance signal.stance

module _ {F : Type 0} (float : Float F) where
  abbrev bps_of : F → F → F
  bps_of notional bps =
      float.times (float.magnitude notional) (float.divide bps (float.of_int (pos 10000)))

  -- The cash of one fill and its costs.
  unfoldable pub fill_event : ExecutionAssumption F → ℤ → ℕ → F → PendingFill → SimulationEvent F
  fill_event assumption current_units event_time price pending_fill =
      let fill_quantity = pending_fill.target_units -ℤ current_units in
      let notional = float.times (float.of_int fill_quantity) price in
      let transaction_cost = bps_of notional assumption.transaction_cost_bps in
      let slippage = bps_of notional assumption.slippage_bps in
      record {
        event_type = fill;
        strategy_decision_id = some pending_fill.strategy_decision_id;
        event_time = event_time;
        quantity = some fill_quantity;
        price = price;
        transaction_cost_applied = transaction_cost;
        slippage_applied = slippage;
        cash_delta = float.negate (float.plus (float.plus notional transaction_cost) slippage);
        position_after_units = some pending_fill.target_units;
      }

  -- `if index in pending_fills`: the fill at the open of the bar.
  unfoldable pub settle :
      ExecutionAssumption F → ℕ → ℕ → F → PendingFill → Simulation F → Simulation F
  unfolding fill_event without
  settle assumption index event_time price pending_fill state =
      let event = fill_event assumption state.current_units event_time price pending_fill in
      let fill_quantity = pending_fill.target_units -ℤ state.current_units in
      record state {
        current_units = pending_fill.target_units;
        cash = float.plus state.cash event.cash_delta;
        total_costs =
            float.plus state.total_costs
              (float.plus event.transaction_cost_applied event.slippage_applied);
        turnover_notional =
            float.plus state.turnover_notional
              (float.magnitude (float.times (float.of_int fill_quantity) price));
        trade_count = state.trade_count + 1;
        pending_fills = without index state.pending_fills;
        events = state.events ++ event ∷ [];
      }

  abbrev pub unfilled_event :
      SimulationEventType → Option String → ℕ → ℤ → F → ℤ → SimulationEvent F
  unfilled_event event_type decision_id event_time quantity price units = record {
    event_type = event_type;
    strategy_decision_id = decision_id;
    event_time = event_time;
    quantity = some quantity;
    price = price;
    transaction_cost_applied = float.of_int (pos 0);
    slippage_applied = float.of_int (pos 0);
    cash_delta = float.of_int (pos 0);
    position_after_units = some units;
  }

-- `_bar_session_open`
unfoldable pub bar_session_open : {F : Type 0} → Zone → SyntheticDailyPriceBar F → ℕ
unfolding regular_session_bounds
bar_session_open zone bar =
    zone.to_utc (regular_session_bounds zone (zone.to_local bar.timestamp).date none).open_at

module _ {F : Type 0} (float : Float F) (zone : Zone) (inputs : LoadedBacktestInputs F)
    (config : BacktestConfig F)
    (make_decision_id : ℕ → Option String → DecisionAction → String) where
  abbrev pub cutoff_of : SyntheticDailyPriceBar F → DecisionCutoff
  cutoff_of bar = build_decision_cutoff zone bar.timestamp []

  abbrev pub selected_at : SyntheticDailyPriceBar F → Option (ComparableSignal F)
  selected_at bar =
      select_signal_for_decision float inputs.sources config.signal_status_allowlist
        config.execution_assumption.signal_availability_buffer_minutes inputs.signals
        (cutoff_of bar)

  -- The fill that is due at the bar, if any.
  unfoldable pub settle_due : ℕ → SyntheticDailyPriceBar F → Simulation F → Simulation F
  unfolding pending_at
  settle_due index bar state = elim (pending_at index state.pending_fills) [
    | none ↦ state
    | some pending_fill ↦
        settle float config.execution_assumption index (bar_session_open zone bar) bar.open_price
          pending_fill state
  ]

  abbrev effective_at_of : Option (ComparableSignal F) → Option ℕ
  effective_at_of none = none
  effective_at_of (some signal) = some signal.effective_at

  abbrev id_of_selected : Option (ComparableSignal F) → Option String
  id_of_selected none = none
  id_of_selected (some signal) = some signal.signal_id

  -- A change of the position that no bar is left to execute.
  abbrev pub is_skipped : ℕ → ℕ → ℤ → ℤ → Bool
  is_skipped bar_count index proposed_target current_units =
      not (eqb_ℤ proposed_target current_units)
      && leb bar_count (index + config.execution_assumption.execution_lag_bars)

  -- The decision at the close of the bar.
  unfoldable pub decide : ℕ → ℕ → SyntheticDailyPriceBar F → ℤ → StrategyDecision
  unfolding select_signal_for_decision build_decision_cutoff target_units_from_stance
      action_for_target
  decide bar_count index bar current_units =
      let selected_signal = selected_at bar in
      let proposed_target = target_of_signal selected_signal in
      let skipped = is_skipped bar_count index proposed_target current_units in
      let action =
        if skipped then skip_signal else action_for_target current_units proposed_target in
      record {
        strategy_decision_id =
            make_decision_id bar.timestamp (id_of_selected selected_signal) action;
        signal_id = id_of_selected selected_signal;
        decision_time = bar.timestamp;
        signal_effective_at = effective_at_of selected_signal;
        action = action;
        target_units = if skipped then current_units else proposed_target;
      }

  abbrev is_skip : DecisionAction → Bool
  is_skip skip_signal = true
  is_skip _ = false

  -- What the decision adds to the records, and the fill that it schedules.
  unfoldable pub record_decision :
      ℕ → SyntheticDailyPriceBar F → StrategyDecision → Simulation F → Simulation F
  unfolding schedule
  record_decision index bar made state = record state {
    decisions = state.decisions ++ made ∷ [];
    events =
        state.events
        ++ unfilled_event float decision (some made.strategy_decision_id) made.decision_time
            made.target_units bar.close_price state.current_units
          ∷ [];
    pending_fills =
        if not (eqb_ℤ made.target_units state.current_units) && not (is_skip made.action)
        then schedule (index + config.execution_assumption.execution_lag_bars)
            (record {
              strategy_decision_id = made.strategy_decision_id;
              target_units = made.target_units;
            })
            state.pending_fills
        else state.pending_fills;
  }

  unfoldable pub mark_to_market : SyntheticDailyPriceBar F → Simulation F → Simulation F
  mark_to_market bar state = record state {
    events =
        state.events
        ++ unfilled_event float mark none bar.timestamp state.current_units bar.close_price
            state.current_units
          ∷ [];
  }

  -- One turn of the loop.
  unfoldable pub simulate_bar : ℕ → ℕ → SyntheticDailyPriceBar F → Simulation F → Simulation F
  unfolding settle_due decide record_decision mark_to_market
  simulate_bar bar_count index bar state =
      let settled = settle_due index bar state in
      let made = decide bar_count index bar settled.current_units in
      mark_to_market bar (record_decision index bar made settled)

  -- `for index, bar in enumerate(bars)`
  unfoldable pub simulate_bars :
      ℕ → ℕ → List (SyntheticDailyPriceBar F) → Simulation F → Simulation F
  simulate_bars bar_count index [] state = state
  simulate_bars bar_count index (bar ∷ bars) state =
      simulate_bars bar_count (index + 1) bars (simulate_bar bar_count index bar state)
