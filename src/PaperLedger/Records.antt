-- ===== src/PaperLedger/Records.antt =====
-- The records of libraries/schemas/paper_ledger.py, with their validators. Identifiers are taken as
-- texts that are not empty, and summaries and provenance are left out.
use ai_native_hedge_fund_ch.Prelude.{
  ℕ, String, Bool, true, false, Option, none, some, List, ◌&&◌, ◌||◌, not, is_some, ltb, raise_if,
  Result, ok, ◌>>◌, truthy,
}
use ai_native_hedge_fund_ch.Prelude.Int.{pos}
use ai_native_hedge_fund_ch.PyFloat.{Float}
use ai_native_hedge_fund_ch.Schemas.Enums.{PositionSide}

pub data PaperPositionStateStatus : Type 0 where
  approved_pending_fill open_ closed cancelled : PaperPositionStateStatus

pub data PositionLifecycleEventType : Type 0 where
  approval_admitted simulated_fill_placeholder mark_updated closed cancelled :
      PositionLifecycleEventType

pub data ReviewFollowupStatus : Type 0 where
  open_ resolved dismissed : ReviewFollowupStatus

abbrev pub is_open : PaperPositionStateStatus → Bool
is_open open_ = true
is_open _ = false

abbrev pub is_closed : PaperPositionStateStatus → Bool
is_closed closed = true
is_closed _ = false

abbrev pub is_cancelled : PaperPositionStateStatus → Bool
is_cancelled cancelled = true
is_cancelled _ = false

abbrev pub is_pending : PaperPositionStateStatus → Bool
is_pending approved_pending_fill = true
is_pending _ = false

-- `state.state in {CLOSED, CANCELLED}`
abbrev pub is_terminal : PaperPositionStateStatus → Bool
is_terminal state = is_closed state || is_cancelled state

pub record PnLPlaceholder (F : Type 0) : Type 0 where
  pub entry_reference_price_usd : Option F
  pub current_or_exit_price_usd : Option F
  pub unrealized_pnl_usd : Option F
  pub realized_pnl_usd : Option F
  pub complete : Bool

pub record PaperPositionState (F : Type 0) : Type 0 where
  pub paper_position_state_id : String
  pub paper_trade_id : String
  pub portfolio_proposal_id : String
  pub position_idea_id : String
  pub signal_id : String
  pub symbol : String
  pub side : PositionSide
  pub state : PaperPositionStateStatus
  pub opened_at : Option ℕ
  pub closed_at : Option ℕ
  pub quantity : Option F
  pub entry_reference_price_usd : Option F
  pub latest_reference_price_usd : Option F
  pub latest_pnl_placeholder : Option (PnLPlaceholder F)
  pub latest_lifecycle_event_id : Option String
  pub latest_ledger_entry_id : Option String
  pub review_followup_ids : List String
  pub trade_outcome_ids : List String
  pub updated_at : ℕ

pub record PositionLifecycleEvent : Type 0 where
  pub position_lifecycle_event_id : String
  pub paper_position_state_id : String
  pub paper_trade_id : String
  pub event_type : PositionLifecycleEventType
  pub prior_state : Option PaperPositionStateStatus
  pub new_state : PaperPositionStateStatus
  pub happened_at : ℕ

pub record PaperLedgerEntry (F : Type 0) : Type 0 where
  pub paper_ledger_entry_id : String
  pub paper_position_state_id : String
  pub paper_trade_id : String
  pub entry_kind : PositionLifecycleEventType
  pub event_time : ℕ
  pub reference_price_usd : Option F
  pub quantity_delta : Option F
  pub notional_delta_usd : Option F
  pub pnl_placeholder : Option (PnLPlaceholder F)
  pub related_lifecycle_event_id : Option String
  pub related_review_decision_id : Option String

pub record ReviewFollowup : Type 0 where
  pub review_followup_id : String
  pub paper_trade_id : String
  pub paper_position_state_id : String
  pub trade_outcome_id : Option String
  pub status : ReviewFollowupStatus
  pub instruction : String

abbrev pub is_bad_price : {F : Type 0} → Float F → Option F → Bool
is_bad_price float none = false
is_bad_price float (some price) = not (float.gt price (float.of_int (pos 0)))

abbrev pub ends_before_start : Option ℕ → Option ℕ → Bool
ends_before_start (some closed_at) (some opened_at) = ltb closed_at opened_at
ends_before_start _ _ = false

module _ {F : Type 0} (float : Float F) where
  -- The field bounds of `PaperPositionState`, then `validate_state`.
  unfoldable pub validate_state : PaperPositionState F → Result (PaperPositionState F)
  validate_state s = do
    raise_if (is_bad_price float s.quantity) "quantity"
    raise_if (is_bad_price float s.entry_reference_price_usd) "entry_reference_price_usd"
    raise_if (is_bad_price float s.latest_reference_price_usd) "latest_reference_price_usd"
    raise_if (is_some s.quantity && not (is_some s.entry_reference_price_usd))
        "entry_reference_price_usd is required when quantity is materialized."
    raise_if (ends_before_start s.closed_at s.opened_at)
        "closed_at must be greater than or equal to opened_at."
    raise_if (is_terminal s.state && not (is_some s.closed_at))
        "closed_at is required for closed or cancelled paper positions."
    ok s

  -- The field bounds of `PnLPlaceholder`, then `validate_placeholder`.
  unfoldable pub validate_placeholder : PnLPlaceholder F → Result (PnLPlaceholder F)
  validate_placeholder p = do
    raise_if (is_bad_price float p.entry_reference_price_usd) "entry_reference_price_usd"
    raise_if (is_bad_price float p.current_or_exit_price_usd) "current_or_exit_price_usd"
    raise_if
        (p.complete
          && (not (is_some p.entry_reference_price_usd)
              || not (is_some p.current_or_exit_price_usd)))
        "Complete PnLPlaceholder requires both prices."
    raise_if
        (p.complete && (not (is_some p.unrealized_pnl_usd) && not (is_some p.realized_pnl_usd)))
        "Complete PnLPlaceholder requires unrealized_pnl_usd or realized_pnl_usd."
    ok p

-- `validate_followup`
unfoldable pub validate_followup : ReviewFollowup → Result ReviewFollowup
validate_followup f = raise_if (not (truthy f.instruction)) "instruction must be non-empty." >> ok f
