-- ===== src/PaperLedger/Operations.antt =====
-- `admit_approved_trade`, `record_lifecycle_event` and `record_trade_outcome`, on the trade and the
-- state that `_resolve_trade_and_state` finds.
pub mod Transitions
pub mod Validity
pub mod Balance
pub mod History
use ai_native_hedge_fund_ch.Prelude.{
  ℕ, String, Bool, true, false, Option, none, some, List, [], ◌∷◌, ◌++◌, ◌&&◌, ◌||◌, not, is_some,
  map, raise_if, Result, ok, err, ◌>>◌, ◌>>=◌, if◌then◌else◌, str_eq,
}
use ai_native_hedge_fund_ch.PyFloat.{Float}
use ai_native_hedge_fund_ch.Schemas.Portfolio.{PaperTrade}
use ai_native_hedge_fund_ch.PaperLedger.Records.{
  PaperPositionStateStatus, PositionLifecycleEventType, PnLPlaceholder, PaperPositionState,
  PositionLifecycleEvent, PaperLedgerEntry, ReviewFollowup, ReviewFollowupStatus,
  approved_pending_fill, approval_admitted, is_open, is_terminal, validate_state, validate_followup,
}
use ai_native_hedge_fund_ch.PaperLedger.Lifecycle.{
  LedgerIds, AdmitApprovedTradeRequest, AdmitApprovedTradeResponse, RecordLifecycleEventRequest,
  RecordLifecycleEventResponse, RecordTradeOutcomeResponse, is_admission, or_else, or_now,
  new_state_from_event, update_trade_for_lifecycle_event, build_placeholder_for_event,
  ledger_deltas_for_event, admission_guards, materialization_followups, admitted_state,
}

module _ {F : Type 0} (float : Float F) (ids : LedgerIds) where
  abbrev admission_event : PaperTrade F → ℕ → PositionLifecycleEvent
  admission_event trade now = record {
    position_lifecycle_event_id = ids.admission_event_id trade.paper_trade_id;
    paper_position_state_id = ids.state_id trade.paper_trade_id;
    paper_trade_id = trade.paper_trade_id;
    event_type = approval_admitted;
    prior_state = none;
    new_state = approved_pending_fill;
    happened_at = or_now trade.approved_at now;
  }

  abbrev admission_entry : AdmitApprovedTradeRequest F → ℕ → PaperLedgerEntry F
  admission_entry request now =
      let trade = request.paper_trade in
      record {
        paper_ledger_entry_id = ids.admission_entry_id trade.paper_trade_id;
        paper_position_state_id = ids.state_id trade.paper_trade_id;
        paper_trade_id = trade.paper_trade_id;
        entry_kind = approval_admitted;
        event_time = or_now trade.approved_at now;
        reference_price_usd = trade.assumed_reference_price_usd;
        quantity_delta = trade.quantity;
        notional_delta_usd = some trade.notional_usd;
        pnl_placeholder = none;
        related_lifecycle_event_id = some (ids.admission_event_id trade.paper_trade_id);
        related_review_decision_id = request.related_review_decision_id;
      }

  unfoldable pub admit_approved_trade :
      AdmitApprovedTradeRequest F → ℕ → Result (AdmitApprovedTradeResponse F)
  unfolding admission_guards admitted_state validate_state
  admit_approved_trade request now = do
    admission_guards float ids request
    state ← validate_state float (admitted_state float ids request now)
    ok (record {
      updated_paper_trade = record request.paper_trade {
        paper_position_state_id = some (ids.state_id request.paper_trade.paper_trade_id);
        updated_at = now;
      };
      paper_position_state = state;
      position_lifecycle_event = admission_event request.paper_trade now;
      paper_ledger_entry = admission_entry request now;
      review_followups = materialization_followups float ids request.paper_trade;
    })

  -- The guards of `record_lifecycle_event`.
  unfoldable pub lifecycle_guards :
      RecordLifecycleEventRequest F → PaperPositionState F → Result (Unit {0})
  lifecycle_guards request state = do
    raise_if (is_admission request.event_type)
        "approval_admitted should be recorded through admit_approved_trade()."
    raise_if (is_terminal state.state)
        "Terminal paper positions cannot accept additional lifecycle events."
    ok tt

  -- The copy of the state; a copy is not validated.
  unfoldable pub state_after_event :
      RecordLifecycleEventRequest F
      → ℕ
      → String
      → Option (PnLPlaceholder F)
      → PaperPositionState F
      → PaperPositionState F
  unfolding new_state_from_event
  state_after_event request now trade_id placeholder state =
      let new_state = new_state_from_event state.state request.event_type in
      record state {
        state = new_state;
        opened_at =
            if is_open new_state && not (is_some state.opened_at)
            then some request.event_time
            else state.opened_at;
        closed_at = if is_terminal new_state then some request.event_time else state.closed_at;
        quantity = or_else request.quantity state.quantity;
        latest_reference_price_usd =
            or_else request.reference_price_usd state.latest_reference_price_usd;
        latest_pnl_placeholder = or_else placeholder state.latest_pnl_placeholder;
        latest_lifecycle_event_id =
            some (ids.event_id trade_id request.event_type request.event_time);
        latest_ledger_entry_id = some (ids.entry_id trade_id request.event_type request.event_time);
        updated_at = now;
      }

  unfoldable pub record_lifecycle_event :
      RecordLifecycleEventRequest F
      → ℕ
      → PaperTrade F
      → PaperPositionState F
      → Result (RecordLifecycleEventResponse F)
  unfolding lifecycle_guards build_placeholder_for_event state_after_event ledger_deltas_for_event
      update_trade_for_lifecycle_event
  record_lifecycle_event request now trade state = do
    lifecycle_guards request state
    let quantity = or_else request.quantity state.quantity
    placeholder ←
        build_placeholder_for_event float trade.side quantity state.entry_reference_price_usd
          request.reference_price_usd request.event_type
    let event_id = ids.event_id trade.paper_trade_id request.event_type request.event_time
    let deltas =
        ledger_deltas_for_event float request.event_type state.quantity quantity
          request.reference_price_usd
    ok (record {
      updated_paper_trade =
          update_trade_for_lifecycle_event trade request.event_type request.event_time
            state.paper_position_state_id now;
      updated_paper_position_state =
          state_after_event request now trade.paper_trade_id placeholder state;
      position_lifecycle_event = record {
        position_lifecycle_event_id = event_id;
        paper_position_state_id = state.paper_position_state_id;
        paper_trade_id = trade.paper_trade_id;
        event_type = request.event_type;
        prior_state = some state.state;
        new_state = new_state_from_event state.state request.event_type;
        happened_at = request.event_time;
      };
      paper_ledger_entry = record {
        paper_ledger_entry_id =
            ids.entry_id trade.paper_trade_id request.event_type request.event_time;
        paper_position_state_id = state.paper_position_state_id;
        paper_trade_id = trade.paper_trade_id;
        entry_kind = request.event_type;
        event_time = request.event_time;
        reference_price_usd = request.reference_price_usd;
        quantity_delta = deltas.0;
        notional_delta_usd = deltas.1;
        pnl_placeholder = placeholder;
        related_lifecycle_event_id = some event_id;
        related_review_decision_id = request.related_review_decision_id;
      };
    })

  -- `_build_followups_for_outcome`: one followup for each instruction.
  unfoldable pub build_followups_for_outcome :
      PaperTrade F → PaperPositionState F → String → List String → Result (List ReviewFollowup)
  unfolding validate_followup
  build_followups_for_outcome trade state outcome_id [] = ok []
  build_followups_for_outcome trade state outcome_id (instruction ∷ instructions) =
      let rest = build_followups_for_outcome trade state outcome_id instructions in
      do
        followup ← validate_followup (record {
          review_followup_id = ids.followup_id outcome_id instruction;
          paper_trade_id = trade.paper_trade_id;
          paper_position_state_id = state.paper_position_state_id;
          trade_outcome_id = some outcome_id;
          status = ReviewFollowupStatus.open_;
          instruction = instruction;
        })
        followups ← rest
        ok (followup ∷ followups)

  -- The outcome of a position that has ended; `outcome_id` is the fresh identifier.
  unfoldable pub record_trade_outcome :
      String
      → List String
      → ℕ
      → PaperTrade F
      → PaperPositionState F
      → Result (RecordTradeOutcomeResponse F)
  unfolding build_followups_for_outcome
  record_trade_outcome outcome_id instructions now trade state = do
    raise_if (not (is_terminal state.state))
        "Trade outcomes can only be recorded for closed or cancelled paper positions."
    followups ← build_followups_for_outcome trade state outcome_id instructions
    ok (record {
      updated_paper_trade = record trade {
        latest_trade_outcome_id = some outcome_id;
        updated_at = now;
      };
      updated_paper_position_state = record state {
        trade_outcome_ids = state.trade_outcome_ids ++ outcome_id ∷ [];
        review_followup_ids =
            state.review_followup_ids ++ map (λ f. f.review_followup_id) followups;
        updated_at = now;
      };
      review_followups = followups;
    })
