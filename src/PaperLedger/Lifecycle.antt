-- ===== src/PaperLedger/Lifecycle.antt =====
-- What an event does to a position and to its trade, and the parts of an admission.
use ai_native_hedge_fund_ch.Prelude.{
  ℕ, String, Bool, true, false, Option, none, some, List, [], ◌∷◌, ◌||◌, not, is_some, map,
  raise_if, Result, ok, ◌>>◌, ◌>>=◌, if◌then◌else◌, str_eq,
}
use ai_native_hedge_fund_ch.PyFloat.{Float}
use ai_native_hedge_fund_ch.Schemas.Enums.{PositionSide, PaperTradeStatus, is_long}
use ai_native_hedge_fund_ch.Schemas.Portfolio.{PaperTrade, PositionIdea, is_trade_approved}
use ai_native_hedge_fund_ch.PaperLedger.Records.{
  PaperPositionStateStatus, PositionLifecycleEventType, PnLPlaceholder, PaperPositionState,
  PositionLifecycleEvent, PaperLedgerEntry, ReviewFollowup, ReviewFollowupStatus,
  approved_pending_fill, open_, approval_admitted, simulated_fill_placeholder, mark_updated,
  is_pending, validate_placeholder,
}

-- The identifiers that the service derives.
pub record LedgerIds : Type 0 where
  pub state_id : String → String
  pub event_id : String → PositionLifecycleEventType → ℕ → String
  pub entry_id : String → PositionLifecycleEventType → ℕ → String
  pub admission_event_id : String → String
  pub admission_entry_id : String → String
  pub followup_id : String → String → String

pub record AdmitApprovedTradeRequest (F : Type 0) : Type 0 where
  pub paper_trade : PaperTrade F
  pub portfolio_proposal_id : String
  pub position_idea : PositionIdea
  pub signal_id : String
  pub related_review_decision_id : Option String

pub record AdmitApprovedTradeResponse (F : Type 0) : Type 0 where
  pub updated_paper_trade : PaperTrade F
  pub paper_position_state : PaperPositionState F
  pub position_lifecycle_event : PositionLifecycleEvent
  pub paper_ledger_entry : PaperLedgerEntry F
  pub review_followups : List ReviewFollowup

pub record RecordLifecycleEventRequest (F : Type 0) : Type 0 where
  pub event_type : PositionLifecycleEventType
  pub event_time : ℕ
  pub reference_price_usd : Option F
  pub quantity : Option F
  pub related_review_decision_id : Option String

pub record RecordLifecycleEventResponse (F : Type 0) : Type 0 where
  pub updated_paper_trade : PaperTrade F
  pub updated_paper_position_state : PaperPositionState F
  pub position_lifecycle_event : PositionLifecycleEvent
  pub paper_ledger_entry : PaperLedgerEntry F

pub record RecordTradeOutcomeResponse (F : Type 0) : Type 0 where
  pub updated_paper_trade : PaperTrade F
  pub updated_paper_position_state : PaperPositionState F
  pub review_followups : List ReviewFollowup

abbrev pub is_admission : PositionLifecycleEventType → Bool
is_admission approval_admitted = true
is_admission _ = false

abbrev pub or_else : {A : Type 0} → Option A → Option A → Option A
or_else none other = other
or_else (some x) other = some x

abbrev pub or_now : Option ℕ → ℕ → ℕ
or_now none now = now
or_now (some time) now = time

-- `_new_state_from_event`
unfoldable pub new_state_from_event :
    PaperPositionStateStatus → PositionLifecycleEventType → PaperPositionStateStatus
new_state_from_event prior_state simulated_fill_placeholder = open_
new_state_from_event prior_state mark_updated =
    if is_pending prior_state then open_ else prior_state
new_state_from_event prior_state PositionLifecycleEventType.closed = PaperPositionStateStatus.closed
new_state_from_event prior_state PositionLifecycleEventType.cancelled =
    PaperPositionStateStatus.cancelled
new_state_from_event prior_state approval_admitted = prior_state

-- `_update_trade_for_lifecycle_event`, on the status and the time of the fill.
abbrev traded_status : PositionLifecycleEventType → PaperTradeStatus → PaperTradeStatus
traded_status simulated_fill_placeholder status = PaperTradeStatus.simulated
traded_status PositionLifecycleEventType.cancelled status = PaperTradeStatus.cancelled
traded_status _ status = status

abbrev fill_time : PositionLifecycleEventType → ℕ → Option ℕ → Option ℕ
fill_time simulated_fill_placeholder event_time at = some event_time
fill_time _ event_time at = at

abbrev pub is_closing : PositionLifecycleEventType → Bool
is_closing PositionLifecycleEventType.closed = true
is_closing _ = false

module _ {F : Type 0} where
  unfoldable pub update_trade_for_lifecycle_event :
      PaperTrade F → PositionLifecycleEventType → ℕ → String → ℕ → PaperTrade F
  update_trade_for_lifecycle_event trade event_type event_time state_id now = record trade {
    paper_position_state_id = some state_id;
    status = traded_status event_type trade.status;
    simulated_fill_at = fill_time event_type event_time trade.simulated_fill_at;
    updated_at = now;
  }

module _ {F : Type 0} (float : Float F) where
  abbrev pub signed_move : PositionSide → F → F → F
  signed_move side entry current =
      let price_move = float.minus current entry in
      if is_long side then price_move else float.negate price_move

  abbrev complete_placeholder : PositionLifecycleEventType → F → F → F → PnLPlaceholder F
  complete_placeholder event_type entry current pnl = record {
    entry_reference_price_usd = some entry;
    current_or_exit_price_usd = some current;
    unrealized_pnl_usd = if is_closing event_type then none else some pnl;
    realized_pnl_usd = if is_closing event_type then some pnl else none;
    complete = true;
  }

  abbrev incomplete_placeholder : Option F → F → PnLPlaceholder F
  incomplete_placeholder entry current = record {
    entry_reference_price_usd = entry;
    current_or_exit_price_usd = some current;
    unrealized_pnl_usd = none;
    realized_pnl_usd = none;
    complete = false;
  }

  abbrev pub placeholder_at :
      PositionSide → Option F → Option F → F → PositionLifecycleEventType → PnLPlaceholder F
  placeholder_at side (some quantity) (some entry) current event_type =
      complete_placeholder event_type entry current
        (float.times quantity (signed_move side entry current))
  placeholder_at side none entry current event_type = incomplete_placeholder entry current
  placeholder_at side (some quantity) none current event_type = incomplete_placeholder none current

  -- `_build_placeholder_for_event`
  unfoldable pub build_placeholder_for_event :
      PositionSide
      → Option F
      → Option F
      → Option F
      → PositionLifecycleEventType
      → Result (Option (PnLPlaceholder F))
  unfolding validate_placeholder
  build_placeholder_for_event side quantity entry none event_type = ok none
  build_placeholder_for_event side quantity entry (some current) event_type = do
    placeholder ← validate_placeholder float (placeholder_at side quantity entry current event_type)
    ok (some placeholder)

  abbrev notional_delta : Option F → Option F → Option F
  notional_delta (some quantity_delta) (some price) = some (float.times quantity_delta price)
  notional_delta _ _ = none

  abbrev change : Option F → Option F → Option F
  change (some prior) (some new) = some (float.minus new prior)
  change none new = new
  change (some prior) none = none

  abbrev negated : Option F → Option F
  negated none = none
  negated (some x) = some (float.negate x)

  -- `_ledger_deltas_for_event`
  unfoldable pub ledger_deltas_for_event :
      PositionLifecycleEventType → Option F → Option F → Option F → Option F × Option F
  ledger_deltas_for_event simulated_fill_placeholder prior new price =
      (change prior new, notional_delta (change prior new) price)
  ledger_deltas_for_event PositionLifecycleEventType.closed prior new price =
      (negated prior, notional_delta (negated prior) price)
  ledger_deltas_for_event _ prior new price = (none, none)

module _ {F : Type 0} (float : Float F) (ids : LedgerIds) where
  -- The guards of `admit_approved_trade`, in their order.
  unfoldable pub admission_guards : AdmitApprovedTradeRequest F → Result (Unit {0})
  admission_guards request =
      let trade = request.paper_trade in
      do
        raise_if (not (is_trade_approved trade.status))
            "Only approved paper trades can be admitted into the paper ledger."
        raise_if (not (str_eq request.portfolio_proposal_id trade.portfolio_proposal_id))
            "portfolio_proposal_id must match the admitted paper trade."
        raise_if (not (str_eq request.position_idea.position_idea_id trade.position_idea_id))
            "position_idea_id must match the admitted paper trade."
        raise_if (not (str_eq request.signal_id request.position_idea.signal_id))
            "signal_id must match the parent position idea signal."
        raise_if (is_some trade.paper_position_state_id)
            "This paper trade has already been admitted into the paper ledger."
        ok tt

  -- The followup of an admission without a quantity or an entry price.
  unfoldable pub materialization_followups : PaperTrade F → List ReviewFollowup
  materialization_followups trade =
      if not (is_some trade.quantity) || not (is_some trade.assumed_reference_price_usd)
      then record {
        review_followup_id = ids.followup_id trade.paper_trade_id "materialization";
        paper_trade_id = trade.paper_trade_id;
        paper_position_state_id = ids.state_id trade.paper_trade_id;
        trade_outcome_id = none;
        status = ReviewFollowupStatus.open_;
        instruction =
            "Supply a reference price and materialized quantity before relying on placeholder PnL tracking.";
      }
        ∷ []
      else []

  unfoldable pub admitted_state : AdmitApprovedTradeRequest F → ℕ → PaperPositionState F
  unfolding materialization_followups
  admitted_state request now =
      let trade = request.paper_trade in
      record {
        paper_position_state_id = ids.state_id trade.paper_trade_id;
        paper_trade_id = trade.paper_trade_id;
        portfolio_proposal_id = request.portfolio_proposal_id;
        position_idea_id = request.position_idea.position_idea_id;
        signal_id = request.signal_id;
        symbol = trade.symbol;
        side = trade.side;
        state = approved_pending_fill;
        opened_at = none;
        closed_at = none;
        quantity = trade.quantity;
        entry_reference_price_usd = trade.assumed_reference_price_usd;
        latest_reference_price_usd = trade.assumed_reference_price_usd;
        latest_pnl_placeholder = none;
        latest_lifecycle_event_id = some (ids.admission_event_id trade.paper_trade_id);
        latest_ledger_entry_id = some (ids.admission_entry_id trade.paper_trade_id);
        review_followup_ids = map (λ f. f.review_followup_id) (materialization_followups trade);
        trade_outcome_ids = [];
        updated_at = now;
      }
