-- ===== src/Backtesting/Simulation/Settled.antt =====
-- Every change of the position that a decision asks for is filled before the run ends.
use ai_native_hedge_fund_ch.Prelude.{
  ℕ, suc, ◌+◌, ◌≤◌, ◌<◌, ◌≡◌, refl, ◌∙◌, String, Bool, true, false, Option, some, List, [], ◌∷◌,
  ◌++◌, inl, inr, arith, All-filter, length, not, ◌&&◌, Bool-cases, if◌then◌else◌,
}
use ai_native_hedge_fund_ch.Prelude.Int.{ℤ, eqb_ℤ}
use ai_native_hedge_fund_ch.PyFloat.{Float}
use ai_native_hedge_fund_ch.Timing.Calendar.{Zone}
use ai_native_hedge_fund_ch.Backtesting.Simulation.{
  SyntheticDailyPriceBar, BacktestConfig, LoadedBacktestInputs, DecisionAction, Simulation,
  StrategyDecision, PendingFill, open_long, open_short, close_position, action_for_target, settle,
  pending_at, without, schedule, settle_due, decide, record_decision, mark_to_market, simulate_bar,
  simulate_bars, is_skipped, target_of_signal, selected_at, is_skip,
}
use ai_native_hedge_fund_ch.Backtesting.Simulation.Pending.{
  HasDistinctBars, IsBetween, pending_at-none, without_free, length-without,
  without-HasDistinctBars, without-IsFree, raise_low, raise_high, between-IsFree, none_between,
  settle_due-cases,
}

-- The decision asks for another position.
abbrev pub is_order : DecisionAction → Bool
is_order open_long = true
is_order open_short = true
is_order close_position = true
is_order _ = false

-- How many decisions do.
unfoldable pub orders : List StrategyDecision → ℕ
orders [] = 0
orders (d ∷ ds) = let rest = orders ds in if is_order d.action then suc rest else rest

orders_snoc :
    (ds : List StrategyDecision) (d : StrategyDecision)
    → orders (ds ++ d ∷ []) ≡ orders ds + (if is_order d.action then 1 else 0)
unfolding orders
orders_snoc [] d = ground arith
orders_snoc (x ∷ xs) d = ground (arith, orders_snoc xs d)

module _ {F : Type 0} where
  -- Before the bar `low`: what is due lies from `low` on, before `high` and before the end, and the
  -- orders so far are the fills made and the fills due.
  pub record IsBalanced (low high bar_count : ℕ) (state : Simulation F) : Type 0 where
    pub soon : IsBetween low high state.pending_fills
    pub in_time : IsBetween low bar_count state.pending_fills
    pub distinct : HasDistinctBars state.pending_fills
    pub counted : state.trade_count + length state.pending_fills ≡ orders state.decisions

module _ {F : Type 0} (float : Float F) (zone : Zone) (inputs : LoadedBacktestInputs F)
    (config : BacktestConfig F)
    (make_decision_id : ℕ → Option String → DecisionAction → String) where
  abbrev lag : ℕ
  lag = config.execution_assumption.execution_lag_bars

  settle-IsBalanced :
      (bar_count index high event_time : ℕ) (price : F) (pending_fill : PendingFill)
      → (state : Simulation F) → pending_at index state.pending_fills ≡ some pending_fill
      → IsBalanced index high bar_count state
      → IsBalanced
          (index + 1)
          high
          bar_count
          (settle float config.execution_assumption index event_time price pending_fill state)
  unfolding settle
  settle-IsBalanced bar_count index high event_time price pending_fill state due h =
      let pending = state.pending_fills in
      let free = without-IsFree index pending in
      record {
        soon =
            raise_low index high (without index pending) free
              (unfold without in All-filter _ _ pending h.soon);
        in_time =
            raise_low index bar_count (without index pending) free
              (unfold without in All-filter _ _ pending h.in_time);
        distinct = without-HasDistinctBars index pending h.distinct;
        counted = omega (arith, h.counted, length-without index pending h.distinct due);
      }

  settle_due-IsBalanced :
      (bar_count index high : ℕ) (bar : SyntheticDailyPriceBar F) (state : Simulation F)
      → IsBalanced index high bar_count state
      → IsBalanced
          (index + 1)
          high
          bar_count
          (settle_due float zone inputs config make_decision_id index bar state)
  settle_due-IsBalanced bar_count index high bar state h =
      settle_due-cases float zone inputs config make_decision_id
        (IsBalanced (index + 1) high bar_count) index bar state
        (λ idle.
          let free = pending_at-none index state.pending_fills idle in
          record {
            soon = raise_low index high state.pending_fills free h.soon;
            in_time = raise_low index bar_count state.pending_fills free h.in_time;
            distinct = h.distinct;
            counted = h.counted;
          })
        (λ pending_fill due.
          settle-IsBalanced bar_count index high _ bar.open_price pending_fill state due h)

  -- The decision is an order exactly if a fill is scheduled for it, and then a bar is left for it.
  record IsTimely (bar_count index : ℕ) (units : ℤ) (made : StrategyDecision) : Type 0 where
    pub scheduled_iff :
        (not (eqb_ℤ made.target_units units)
          && not (is_skip float zone inputs config make_decision_id made.action))
        ≡ is_order made.action
    pub has_bar : is_order made.action ≡ true → index + lag < bar_count

  decide-IsTimely :
      (bar_count index : ℕ) (bar : SyntheticDailyPriceBar F) (units : ℤ)
      → IsTimely bar_count index units
          (decide float zone inputs config make_decision_id bar_count index bar units)
  unfolding decide action_for_target
  decide-IsTimely bar_count index bar units =
      elim (Bool-cases (
        is_skipped float zone inputs config make_decision_id bar_count index
          (target_of_signal (selected_at float zone inputs config make_decision_id bar)) units)) [
            | inl skipped ↦ record {
              scheduled_iff = rw skipped (ground arith);
              has_bar = rw skipped (λ h. cc);
            }
            | inr kept ↦ record {
              scheduled_iff = rw kept (ground arith);
              has_bar = rw kept (λ h. ground arith);
            }
          ]

  record_decision-IsBalanced :
      (bar_count index : ℕ) (bar : SyntheticDailyPriceBar F) (made : StrategyDecision)
      → (state : Simulation F) → 1 ≤ lag
      → IsTimely bar_count index state.current_units made
      → IsBalanced (index + 1) (index + lag) bar_count state
      → IsBalanced
          (index + 1)
          (index + 1 + lag)
          bar_count
          (record_decision float zone inputs config make_decision_id index bar made state)
  unfolding record_decision schedule
  record_decision-IsBalanced bar_count index bar made state positive timely h =
      let pending = state.pending_fills in
      let free =
        between-IsFree (index + 1) (index + lag) (index + lag) pending (omega arith) h.soon in
      let later =
        raise_high (index + 1) (index + lag) (index + 1 + lag) pending (omega arith) h.soon in
      let count = orders_snoc state.decisions made in
      elim (Bool-cases (is_order made.action)) [
        | inl order ↦
            let room = timely.has_bar order in
            rw (timely.scheduled_iff ∙ order, without_free (index + lag) pending free)
              (record {
                soon = ((omega (arith, positive), omega arith), later);
                in_time = ((omega (arith, positive), room), h.in_time);
                distinct = (free, h.distinct);
                counted = ground (arith, h.counted, count, order);
              })
        | inr hold ↦ rw (timely.scheduled_iff ∙ hold) (record {
          soon = later;
          in_time = h.in_time;
          distinct = h.distinct;
          counted = ground (arith, h.counted, count, hold);
        })
      ]

  simulate_bar-IsBalanced :
      (bar_count index : ℕ) (bar : SyntheticDailyPriceBar F) (state : Simulation F)
      → 1 ≤ lag
      → IsBalanced index (index + lag) bar_count state
      → IsBalanced
          (index + 1)
          (index + 1 + lag)
          bar_count
          (simulate_bar float zone inputs config make_decision_id bar_count index bar state)
  unfolding simulate_bar mark_to_market
  simulate_bar-IsBalanced bar_count index bar state positive h =
      let settled = settle_due float zone inputs config make_decision_id index bar state in
      let made =
        decide float zone inputs config make_decision_id bar_count index bar
          settled.current_units in
      let recorded =
        record_decision-IsBalanced bar_count index bar made settled positive
          (decide-IsTimely bar_count index bar settled.current_units)
          (settle_due-IsBalanced bar_count index (index + lag) bar state h) in
      record {
        soon = recorded.soon;
        in_time = recorded.in_time;
        distinct = recorded.distinct;
        counted = recorded.counted;
      }

  simulate_bars-IsBalanced :
      (bar_count index : ℕ) (bars : List (SyntheticDailyPriceBar F)) (state : Simulation F)
      → 1 ≤ lag
      → index + length bars ≡ bar_count
      → IsBalanced index (index + lag) bar_count state
      → IsBalanced bar_count
          (bar_count + lag)
          bar_count
          (simulate_bars float zone inputs config make_decision_id bar_count index bars state)
  unfolding simulate_bars
  simulate_bars-IsBalanced bar_count index [] state positive total h =
      let same : bar_count ≡ index = omega (arith, total) in rw same (rw same at h)
  simulate_bars-IsBalanced bar_count index (bar ∷ bars) state positive total h =
      simulate_bars-IsBalanced bar_count (index + 1) bars _ positive (omega (arith, total))
        (simulate_bar-IsBalanced bar_count index bar state positive h)

  -- From an account without decisions, trades or pending fills and with an execution lag of at least
  -- one bar, the run over all bars leaves no fill pending, and it has made exactly as many fills as
  -- its decisions asked for changes of the position.
  pub every_order_filled :
      (bars : List (SyntheticDailyPriceBar F)) (start : Simulation F)
      → 1 ≤ lag
      → start.pending_fills ≡ []
      → start.decisions ≡ []
      → start.trade_count ≡ 0
      → let final =
          simulate_bars float zone inputs config make_decision_id (length bars) 0 bars start in
        (final.pending_fills ≡ []) × (final.trade_count ≡ orders final.decisions)
  unfolding orders
  every_order_filled bars start positive no_pending no_decisions no_trades =
      let final =
        simulate_bars float zone inputs config make_decision_id (length bars) 0 bars start in
      let balanced =
        simulate_bars-IsBalanced (length bars) 0 bars start positive (omega arith) (record {
          soon = rw no_pending tt;
          in_time = rw no_pending tt;
          distinct = rw no_pending tt;
          counted = rw (no_pending, no_decisions, no_trades) refl;
        }) in
      let settled = none_between (length bars) final.pending_fills balanced.in_time in
      let same : final.trade_count + length final.pending_fills ≡ orders final.decisions =
        balanced.counted in
      (settled, omega (arith, rw settled at same))
