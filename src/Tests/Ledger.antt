-- ===== src/Tests/Ledger.antt =====
-- The properties of the paper ledger on one trade: admitted, filled, marked and closed.
use ai_native_hedge_fund_ch.Prelude.{
  ℕ, ◌+◌, ◌≡◌, refl, ◌↔◌, ◌&&◌, String, true, false, none, some, List, [], ◌∷◌, inl, inr, Result,
  ok, is_some, is_empty, not, all, filter, length, sorted_set,
}
use ai_native_hedge_fund_ch.Prelude.Int.{pos, ◌+ℤ◌, ◌-ℤ◌, ◌*ℤ◌}
use ai_native_hedge_fund_ch.PyFloat.{Milli, milli}
use ai_native_hedge_fund_ch.Schemas.Enums.{PositionSide, PaperTradeStatus}
use ai_native_hedge_fund_ch.PaperLedger.Records.{
  PaperPositionStateStatus, PositionLifecycleEventType, PaperPositionState,
  simulated_fill_placeholder, mark_updated, open_, is_open, validate_state, validate_placeholder,
}
use ai_native_hedge_fund_ch.PaperLedger.Lifecycle.{
  LedgerIds, AdmitApprovedTradeRequest, AdmitApprovedTradeResponse, RecordLifecycleEventResponse,
  new_state_from_event, update_trade_for_lifecycle_event, build_placeholder_for_event,
  ledger_deltas_for_event, admission_guards, materialization_followups, admitted_state,
}
use ai_native_hedge_fund_ch.PaperLedger.Operations.{
  admit_approved_trade, lifecycle_guards, state_after_event, record_lifecycle_event,
}
use ai_native_hedge_fund_ch.PaperLedger.Operations.Transitions.{Transition, event_refines}
use ai_native_hedge_fund_ch.PaperLedger.Operations.Validity.{event_keeps_valid}
use ai_native_hedge_fund_ch.PaperLedger.Operations.History.{
  Position, Timed, admitted, record_events, ending_is_last,
}
use ai_native_hedge_fund_ch.PaperLedger.Operations.Balance.{
  milli-HasExactSums, ledger_balance, held, history_in_balance,
}
use ai_native_hedge_fund_ch.PaperLedger.Daily.{
  LedgerWorkspace, DailyPaperSummary, is_priced, accumulate, aggregate_open, priced_aggregate,
  aggregate_daily_placeholder, generate_daily_paper_summary,
}
use ai_native_hedge_fund_ch.PaperLedger.Daily.Book.{pending_count, daily_book}
use ai_native_hedge_fund_ch.Tests.Scenario.{no_idea}
use ai_native_hedge_fund_ch.Tests.Reviewing.{trade}

abbrev ids : LedgerIds
ids = record {
  state_id = λ trade_id. "position";
  event_id = λ trade_id event_type time. "event";
  entry_id = λ trade_id event_type time. "entry";
  admission_event_id = λ trade_id. "admission";
  admission_entry_id = λ trade_id. "first";
  followup_id = λ subject instruction. instruction;
}

abbrev request : AdmitApprovedTradeRequest Milli
request = record {
  paper_trade = record trade {
    status = PaperTradeStatus.approved;
    approved_at = some 30;
    approved_by = some "reviewer";
  };
  portfolio_proposal_id = "proposal";
  position_idea = record no_idea { position_idea_id = "idea"; signal_id = "signal" };
  signal_id = "signal";
  related_review_decision_id = none;
}

unfoldable admission : AdmitApprovedTradeResponse Milli
unfolding admitted_state materialization_followups
admission = record {
  updated_paper_trade = record request.paper_trade {
    paper_position_state_id = some "position";
    updated_at = 40;
  };
  paper_position_state = admitted_state milli ids request 40;
  position_lifecycle_event = record {
    position_lifecycle_event_id = "admission";
    paper_position_state_id = "position";
    paper_trade_id = "trade";
    event_type = PositionLifecycleEventType.approval_admitted;
    prior_state = none;
    new_state = PaperPositionStateStatus.approved_pending_fill;
    happened_at = 30;
  };
  paper_ledger_entry = record {
    paper_ledger_entry_id = "first";
    paper_position_state_id = "position";
    paper_trade_id = "trade";
    entry_kind = PositionLifecycleEventType.approval_admitted;
    event_time = 30;
    reference_price_usd = some (pos 50000);
    quantity_delta = some (pos 2000);
    notional_delta_usd = some (pos 100000);
    pnl_placeholder = none;
    related_lifecycle_event_id = some "admission";
    related_review_decision_id = none;
  };
  review_followups = [];
}

admission_made : admit_approved_trade milli ids request 40 ≡ ok admission
unfolding admission admit_approved_trade admission_guards admitted_state materialization_followups
    validate_state milli ◌*ℤ◌
admission_made = refl

abbrev event : PositionLifecycleEventType → ℕ → Timed Milli
event event_type time = (
  record {
    event_type = event_type;
    event_time = time;
    reference_price_usd = some (pos 55000);
    quantity = none;
    related_review_decision_id = none;
  },
  time,
)

abbrev fill : Timed Milli
fill = (record (event simulated_fill_placeholder 50).0 { quantity = some (pos 3000) }, 50)

abbrev mark : Timed Milli
mark = event mark_updated 60

abbrev closing : Timed Milli
closing = event PositionLifecycleEventType.closed 70

abbrev life : List (Timed Milli)
life = fill ∷ mark ∷ closing ∷ []

abbrev position_or : Position Milli → Result (Position Milli) → Position Milli
position_or other (ok p) = p
position_or other _ = other

unfoldable closed_position : Position Milli
closed_position =
    position_or (admitted admission) (record_events milli ids life (admitted admission))

life_recorded :
    (record_events milli ids life (admitted admission) ≡ ok closed_position)
    × (closed_position.state.state ≡ PaperPositionStateStatus.closed)
unfolding closed_position admission record_events record_lifecycle_event lifecycle_guards
    state_after_event ledger_deltas_for_event build_placeholder_for_event new_state_from_event
    update_trade_for_lifecycle_event admitted_state materialization_followups validate_placeholder
    milli ◌*ℤ◌ ◌+ℤ◌ ◌-ℤ◌
life_recorded = (refl, refl)

history_in_balance_example :
    ledger_balance milli (milli.of_int (pos 0)) closed_position.entries
    ≡ held milli closed_position.state.state closed_position.state.quantity
history_in_balance_example =
    history_in_balance milli milli-HasExactSums ids request 40 life admission_made
      (inl refl, (inr refl, (inr refl, tt))) life_recorded.0

abbrev nothing_after : List (Timed Milli)
nothing_after = []

ending_is_last_example : nothing_after ≡ []
ending_is_last_example =
    ending_is_last milli ids (fill ∷ mark ∷ []) closing nothing_after (admitted admission) refl
      life_recorded.0

prices_good :
    (not (milli.gt (pos 55000) (milli.of_int (pos 0))) ≡ false)
    × (not (milli.gt (pos 50000) (milli.of_int (pos 0))) ≡ false)
unfolding milli ◌*ℤ◌
prices_good = (refl, refl)

quantity_good : not (milli.gt (pos 3000) (milli.of_int (pos 0))) ≡ false
unfolding milli ◌*ℤ◌
quantity_good = refl

abbrev plain_position : PaperPositionState Milli
plain_position = record {
  paper_position_state_id = "position";
  paper_trade_id = "trade";
  portfolio_proposal_id = "proposal";
  position_idea_id = "idea";
  signal_id = "signal";
  symbol = "ACME";
  side = PositionSide.long;
  state = PaperPositionStateStatus.approved_pending_fill;
  opened_at = none;
  closed_at = none;
  quantity = some (pos 2000);
  entry_reference_price_usd = some (pos 50000);
  latest_reference_price_usd = some (pos 50000);
  latest_pnl_placeholder = none;
  latest_lifecycle_event_id = none;
  latest_ledger_entry_id = none;
  review_followup_ids = [];
  trade_outcome_ids = [];
  updated_at = 40;
}

event_refines_example :
    ((r : RecordLifecycleEventResponse Milli) × (record_lifecycle_event milli ids fill.0 50 trade
          plain_position
        ≡ ok r)
      × (r.updated_paper_position_state.state ≡ open_))
    ↔ Transition plain_position.state fill.0.event_type open_
event_refines_example =
    event_refines milli ids fill.0 50 trade plain_position open_ prices_good.0 prices_good.1

plain_valid : validate_state milli plain_position ≡ ok plain_position
unfolding validate_state milli ◌*ℤ◌
plain_valid = refl

abbrev response_or :
    RecordLifecycleEventResponse Milli
    → Result (RecordLifecycleEventResponse Milli)
    → RecordLifecycleEventResponse Milli
response_or other (ok r) = r
response_or other _ = other

abbrev no_answer : RecordLifecycleEventResponse Milli
no_answer = record {
  updated_paper_trade = trade;
  updated_paper_position_state = plain_position;
  position_lifecycle_event = record {
    position_lifecycle_event_id = "";
    paper_position_state_id = "";
    paper_trade_id = "";
    event_type = mark_updated;
    prior_state = none;
    new_state = open_;
    happened_at = 0;
  };
  paper_ledger_entry = record {
    paper_ledger_entry_id = "";
    paper_position_state_id = "";
    paper_trade_id = "";
    entry_kind = mark_updated;
    event_time = 0;
    reference_price_usd = none;
    quantity_delta = none;
    notional_delta_usd = none;
    pnl_placeholder = none;
    related_lifecycle_event_id = none;
    related_review_decision_id = none;
  };
}

unfoldable filled : RecordLifecycleEventResponse Milli
filled = response_or no_answer (record_lifecycle_event milli ids fill.0 50 trade plain_position)

filled_recorded : record_lifecycle_event milli ids fill.0 50 trade plain_position ≡ ok filled
unfolding filled record_lifecycle_event lifecycle_guards state_after_event ledger_deltas_for_event
    build_placeholder_for_event new_state_from_event update_trade_for_lifecycle_event
    validate_placeholder milli ◌*ℤ◌ ◌+ℤ◌ ◌-ℤ◌
filled_recorded = refl

event_keeps_valid_example :
    validate_state milli filled.updated_paper_position_state
    ≡ ok filled.updated_paper_position_state
event_keeps_valid_example =
    event_keeps_valid milli ids fill.0 50 trade plain_position plain_valid quantity_good
      prices_good.0 refl refl refl filled_recorded

abbrev workspace : LedgerWorkspace Milli
workspace = record {
  states = plain_position ∷ record plain_position { state = open_ } ∷ [];
  lifecycle_events = ("event", 3) ∷ [];
  trade_outcomes = [];
  review_followups = [];
}

abbrev marks : List (String × Milli)
marks = ("ACME", pos 60000) ∷ []

abbrev summary_or : Result (DailyPaperSummary Milli) → DailyPaperSummary Milli
summary_or (ok summary) = summary
summary_or _ = record {
  summary_date = 0;
  open_position_state_ids = [];
  closed_position_state_ids = [];
  cancelled_position_state_ids = [];
  lifecycle_event_ids = [];
  trade_outcome_ids = [];
  open_review_followup_ids = [];
  open_position_count = 0;
  closed_position_count = 0;
  cancelled_position_count = 0;
  aggregate_pnl_placeholder = none;
  notes = [];
  attention_reasons = [];
}

unfoldable summary : DailyPaperSummary Milli
summary = summary_or (generate_daily_paper_summary milli marks workspace 3)

summary_made :
    (generate_daily_paper_summary milli marks workspace 3 ≡ ok summary)
    × (is_some summary.aggregate_pnl_placeholder ≡ true)
unfolding summary generate_daily_paper_summary aggregate_daily_placeholder aggregate_open
    priced_aggregate accumulate validate_placeholder milli ◌*ℤ◌ ◌+ℤ◌ ◌-ℤ◌ sorted_set
summary_made = (refl, refl)

daily_book_example :
    (summary.open_position_count
        + summary.closed_position_count
        + summary.cancelled_position_count
        + pending_count workspace.states
      ≡ length workspace.states)
    × (is_some summary.aggregate_pnl_placeholder ≡ (
        not (is_empty (filter (λ s. is_open s.state) workspace.states))
        && all (is_priced milli marks) (filter (λ s. is_open s.state) workspace.states)))
daily_book_example = daily_book milli marks workspace 3 summary_made.0
