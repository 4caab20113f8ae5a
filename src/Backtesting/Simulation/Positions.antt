-- ===== src/Backtesting/Simulation/Positions.antt =====
-- The position of a backtest: never more than one unit, and the sum of the fills.
use ai_native_hedge_fund_ch.Prelude.{
  ℕ, ◌+◌, ◌≤◌, ◌≡◌, refl, ◌∙◌, String, Option, none, some, List, [], ◌∷◌, ◌++◌, inl, inr, arith,
  All, All-append, All-filter, Bool-cases, not, ◌&&◌, ◌==◌,
}
use ai_native_hedge_fund_ch.Prelude.Int.{
  ℤ, pos, pos_part, neg_part, ◌+ℤ◌, ◌-ℤ◌, int_laws, eqb_ℤ, +ℤ_zero_right,
}
use ai_native_hedge_fund_ch.PyFloat.{Float}
use ai_native_hedge_fund_ch.Schemas.Enums.{ResearchStance}
use ai_native_hedge_fund_ch.Timing.Calendar.{Zone}
use ai_native_hedge_fund_ch.Backtesting.Signals.{ComparableSignal}
use ai_native_hedge_fund_ch.Backtesting.Simulation.{
  SyntheticDailyPriceBar, BacktestConfig, LoadedBacktestInputs, DecisionAction, Simulation,
  StrategyDecision, PendingFill, SimulationEvent, SimulationEventType, fill,
  target_units_from_stance, target_of_signal, fill_event, settle, pending_at, without, schedule,
  settle_due, decide, record_decision, mark_to_market, simulate_bar, simulate_bars, selected_at,
  is_skipped, is_skip,
}
use ai_native_hedge_fund_ch.Backtesting.Simulation.Pending.{settle_due-cases}

-- At most one unit, long or short.
abbrev pub IsUnit : ℤ → Type 0
IsUnit n = pos_part n + neg_part n ≤ 1

target_units-IsUnit : (stance : ResearchStance) → IsUnit (target_units_from_stance stance)
unfolding target_units_from_stance
target_units-IsUnit ResearchStance.positive = omega arith
target_units-IsUnit ResearchStance.negative = omega arith
target_units-IsUnit ResearchStance.mixed = omega arith
target_units-IsUnit ResearchStance.monitor = omega arith

target_of_signal-IsUnit :
    {F : Type 0} (signal : Option (ComparableSignal F)) → IsUnit (target_of_signal signal)
target_of_signal-IsUnit none = omega arith
target_of_signal-IsUnit (some signal) = target_units-IsUnit signal.stance

abbrev filled_units : SimulationEventType → Option ℤ → ℤ
filled_units fill (some quantity) = quantity
filled_units _ _ = pos 0

-- The sum of the quantities of the fills.
unfoldable pub units_filled : {F : Type 0} → List (SimulationEvent F) → ℤ
units_filled [] = pos 0
units_filled (event ∷ events) = filled_units event.event_type event.quantity +ℤ units_filled events

module _ {F : Type 0} where
  units_filled_snoc :
      (events : List (SimulationEvent F)) (event : SimulationEvent F)
      → units_filled (events ++ event ∷ [])
        ≡ units_filled events +ℤ filled_units event.event_type event.quantity
  unfolding units_filled
  units_filled_snoc [] event = omega int_laws
  units_filled_snoc (x ∷ xs) event = rw (units_filled_snoc xs event) (omega int_laws)

  -- The position is at most one unit, and so is every position that is decided or scheduled; it is
  -- the sum of the fills.
  pub record IsSound (state : Simulation F) : Type 0 where
    pub position : IsUnit state.current_units
    pub scheduled : All (λ entry. IsUnit entry.1.target_units) state.pending_fills
    pub decided : All (λ d. IsUnit d.target_units) state.decisions
    pub summed : units_filled state.events ≡ state.current_units

add_back : (target units : ℤ) → units +ℤ (target -ℤ units) ≡ target
add_back target units = omega int_laws

module _ {F : Type 0} (float : Float F) (zone : Zone) (inputs : LoadedBacktestInputs F)
    (config : BacktestConfig F)
    (make_decision_id : ℕ → Option String → DecisionAction → String) where
  pending_at-IsUnit :
      (index : ℕ) (pending : List (ℕ × PendingFill)) {pending_fill : PendingFill}
      → All (λ entry. IsUnit entry.1.target_units) pending
      → pending_at index pending ≡ some pending_fill
      → IsUnit pending_fill.target_units
  unfolding pending_at
  pending_at-IsUnit index [] h e = absurd (cc)
  pending_at-IsUnit index (entry ∷ entries) {pending_fill} h e =
      elim (Bool-cases (entry.0 == index)) [
        | inl t ↦ let same : entry.1 ≡ pending_fill = cc (rw t at e) in rw (← same) h.0
        | inr f ↦ pending_at-IsUnit index entries h.1 (rw f at e)
      ]

  settle-IsSound :
      (index event_time : ℕ) (price : F) (pending_fill : PendingFill) (state : Simulation F)
      → pending_at index state.pending_fills ≡ some pending_fill
      → IsSound state
      → IsSound (settle float config.execution_assumption index event_time price pending_fill state)
  unfolding settle fill_event without
  settle-IsSound index event_time price pending_fill state due h = record {
    position = pending_at-IsUnit index state.pending_fills h.scheduled due;
    scheduled = All-filter _ _ state.pending_fills h.scheduled;
    decided = h.decided;
    summed =
        units_filled_snoc state.events _
        ∙ rw h.summed (add_back pending_fill.target_units state.current_units);
  }

  settle_due-IsSound :
      (index : ℕ) (bar : SyntheticDailyPriceBar F) (state : Simulation F)
      → IsSound state
      → IsSound (settle_due float zone inputs config make_decision_id index bar state)
  settle_due-IsSound index bar state h =
      settle_due-cases float zone inputs config make_decision_id IsSound index bar state (λ idle. h)
        (λ pending_fill due. settle-IsSound index _ bar.open_price pending_fill state due h)

  decide-IsUnit :
      (bar_count index : ℕ) (bar : SyntheticDailyPriceBar F) (units : ℤ)
      → IsUnit units
      → IsUnit
          (decide float zone inputs config make_decision_id bar_count index bar units).target_units
  unfolding decide
  decide-IsUnit bar_count index bar units h =
      let selected = selected_at float zone inputs config make_decision_id bar in
      elim (Bool-cases (
        is_skipped float zone inputs config make_decision_id bar_count index
          (target_of_signal selected) units)) [
            | inl skipped ↦ rw skipped h
            | inr kept ↦ rw kept (target_of_signal-IsUnit selected)
          ]

  unfilled-summed :
      (events : List (SimulationEvent F)) (event : SimulationEvent F) {units : ℤ}
      → filled_units event.event_type event.quantity ≡ pos 0
      → units_filled events ≡ units
      → units_filled (events ++ event ∷ []) ≡ units
  unfilled-summed events event {units} quiet h =
      units_filled_snoc events event ∙ rw (quiet, h) (+ℤ_zero_right units)

  record_decision-IsSound :
      (index : ℕ) (bar : SyntheticDailyPriceBar F) (made : StrategyDecision) (state : Simulation F)
      → IsUnit made.target_units
      → IsSound state
      → IsSound (record_decision float zone inputs config make_decision_id index bar made state)
  unfolding record_decision schedule without
  record_decision-IsSound index bar made state unit h = record {
    position = h.position;
    scheduled =
        elim (Bool-cases (
          not (eqb_ℤ made.target_units state.current_units)
          && not (is_skip float zone inputs config make_decision_id made.action))) [
            | inl order ↦ rw order (unit, All-filter _ _ state.pending_fills h.scheduled)
            | inr hold ↦ rw hold h.scheduled
          ];
    decided = All-append _ state.decisions (made ∷ []) h.decided (unit, tt);
    summed = unfilled-summed state.events _ refl h.summed;
  }

  simulate_bar-IsSound :
      (bar_count index : ℕ) (bar : SyntheticDailyPriceBar F) (state : Simulation F)
      → IsSound state
      → IsSound (simulate_bar float zone inputs config make_decision_id bar_count index bar state)
  unfolding simulate_bar mark_to_market
  simulate_bar-IsSound bar_count index bar state h =
      let settled = settle_due-IsSound index bar state h in
      let recorded =
        record_decision-IsSound index bar _ _ (decide-IsUnit bar_count index bar _ settled.position)
          settled in
      record {
        position = recorded.position;
        scheduled = recorded.scheduled;
        decided = recorded.decided;
        summed = unfilled-summed _ _ refl recorded.summed;
      }

  -- If a simulation holds at most one unit, long or short, if the same is true of everything that it
  -- has decided or scheduled, and if its position is the sum of the quantities of its fills, then all
  -- of this is still true after any further bars.
  pub simulate_bars-IsSound :
      (bar_count index : ℕ) (bars : List (SyntheticDailyPriceBar F)) (state : Simulation F)
      → IsSound state
      → IsSound (simulate_bars float zone inputs config make_decision_id bar_count index bars state)
  unfolding simulate_bars
  simulate_bars-IsSound bar_count index [] state h = h
  simulate_bars-IsSound bar_count index (bar ∷ bars) state h =
      simulate_bars-IsSound bar_count (index + 1) bars _
        (simulate_bar-IsSound bar_count index bar state h)
