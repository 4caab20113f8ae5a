-- ===== src/Backtesting/Simulation/Replay.antt =====
-- The event log of a backtest, read back: an account that knows only the events.
use ai_native_hedge_fund_ch.Prelude.{
  ℕ, ◌+◌, ◌≡◌, refl, String, Option, none, some, List, [], ◌∷◌, ◌++◌,
}
use ai_native_hedge_fund_ch.Prelude.Int.{ℤ, pos}
use ai_native_hedge_fund_ch.PyFloat.{Float}
use ai_native_hedge_fund_ch.Timing.Calendar.{Zone}
use ai_native_hedge_fund_ch.Backtesting.Simulation.{
  SyntheticDailyPriceBar, BacktestConfig, LoadedBacktestInputs, DecisionAction, Simulation,
  PendingFill, SimulationEvent, SimulationEventType, ExecutionAssumption, fill, fill_event, settle,
  settle_due, record_decision, mark_to_market, simulate_bar, simulate_bars,
}
use ai_native_hedge_fund_ch.Backtesting.Simulation.Pending.{settle_due-cases}

pub record Account (F : Type 0) : Type 0 where
  pub units : ℤ
  pub cash : F
  pub costs : F
  pub turnover : F
  pub trades : ℕ

abbrev or_zero_units : Option ℤ → ℤ
or_zero_units none = pos 0
or_zero_units (some n) = n

module _ {F : Type 0} where
  abbrev pub account_of : Simulation F → Account F
  account_of state = record {
    units = state.current_units;
    cash = state.cash;
    costs = state.total_costs;
    turnover = state.turnover_notional;
    trades = state.trade_count;
  }

module _ {F : Type 0} (float : Float F) where
  -- Only a fill changes the account, by what it says itself.
  abbrev pub booked : SimulationEventType → SimulationEvent F → Account F → Account F
  booked fill event account = record {
    units = or_zero_units event.position_after_units;
    cash = float.plus account.cash event.cash_delta;
    costs =
        float.plus account.costs (float.plus event.transaction_cost_applied event.slippage_applied);
    turnover =
        float.plus account.turnover
          (float.magnitude (float.times (float.of_int (or_zero_units event.quantity)) event.price));
    trades = account.trades + 1;
  }
  booked _ event account = account

  unfoldable pub replay : Account F → List (SimulationEvent F) → Account F
  replay account [] = account
  replay account (event ∷ events) = replay (booked event.event_type event account) events

  pub replay-append :
      (account : Account F) (xs ys : List (SimulationEvent F))
      → replay account (xs ++ ys) ≡ replay (replay account xs) ys
  unfolding replay
  replay-append account [] ys = refl
  replay-append account (x ∷ xs) ys = replay-append (booked x.event_type x account) xs ys

  -- The log of a state says what its account is.
  abbrev pub IsLogged : Account F → Simulation F → Type 0
  IsLogged start state = replay start state.events ≡ account_of state

  snoc_logged :
      (start account : Account F) (events : List (SimulationEvent F)) (event : SimulationEvent F)
      → replay start events ≡ account
      → replay start (events ++ event ∷ []) ≡ booked event.event_type event account
  unfolding replay
  snoc_logged start account events event h = rw (replay-append start events (event ∷ []), h) refl

  settle-IsLogged :
      (start : Account F) (assumption : ExecutionAssumption F) (index event_time : ℕ) (price : F)
      → (pending_fill : PendingFill) (state : Simulation F) → IsLogged start state
      → IsLogged start (settle float assumption index event_time price pending_fill state)
  unfolding settle fill_event
  settle-IsLogged start assumption index event_time price pending_fill state h =
      snoc_logged start (account_of state) state.events _ h

module _ {F : Type 0} (float : Float F) (zone : Zone) (inputs : LoadedBacktestInputs F)
    (config : BacktestConfig F)
    (make_decision_id : ℕ → Option String → DecisionAction → String) where
  settle_due-IsLogged :
      (start : Account F) (index : ℕ) (bar : SyntheticDailyPriceBar F) (state : Simulation F)
      → IsLogged float start state
      → IsLogged float start (settle_due float zone inputs config make_decision_id index bar state)
  settle_due-IsLogged start index bar state h =
      settle_due-cases float zone inputs config make_decision_id (IsLogged float start) index bar
        state (λ idle. h)
        (λ pending_fill due.
          settle-IsLogged float start config.execution_assumption index _ bar.open_price
            pending_fill state h)

  simulate_bar-IsLogged :
      (start : Account F) (bar_count index : ℕ) (bar : SyntheticDailyPriceBar F)
      → (state : Simulation F) → IsLogged float start state
      → IsLogged float start
          (simulate_bar float zone inputs config make_decision_id bar_count index bar state)
  unfolding simulate_bar record_decision mark_to_market
  simulate_bar-IsLogged start bar_count index bar state h =
      snoc_logged float start _ _ _
        (snoc_logged float start _ _ _ (settle_due-IsLogged start index bar state h))

  -- After any bars, the account of the simulation is the one that its log replays to.
  pub simulate_bars-IsLogged :
      (start : Account F) (bar_count index : ℕ) (bars : List (SyntheticDailyPriceBar F))
      → (state : Simulation F) → IsLogged float start state
      → IsLogged float start
          (simulate_bars float zone inputs config make_decision_id bar_count index bars state)
  unfolding simulate_bars
  simulate_bars-IsLogged start bar_count index [] state h = h
  simulate_bars-IsLogged start bar_count index (bar ∷ bars) state h =
      simulate_bars-IsLogged start bar_count (index + 1) bars _
        (simulate_bar-IsLogged start bar_count index bar state h)
