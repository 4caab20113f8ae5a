-- ===== src/PaperLedger/Daily.antt =====
-- `generate_daily_paper_summary`: the book of one day, from the artifacts that the loader found.
pub mod Book
use ai_native_hedge_fund_ch.Prelude.{
  ℕ, String, Bool, true, false, Option, none, some, List, [], ◌∷◌, ◌++◌, ◌&&◌, ◌||◌, not, is_some,
  is_empty, any, filter, map, length, sorted_set, str_eq, ◌==◌, Result, ok, err, ◌>>=◌,
  if◌then◌else◌,
}
use ai_native_hedge_fund_ch.Prelude.Int.{pos}
use ai_native_hedge_fund_ch.PyFloat.{Float}
use ai_native_hedge_fund_ch.PaperLedger.Records.{
  PaperPositionState, PnLPlaceholder, ReviewFollowup, ReviewFollowupStatus, is_open, is_closed,
  is_cancelled, validate_placeholder,
}
use ai_native_hedge_fund_ch.PaperLedger.Lifecycle.{signed_move}

-- The artifacts of the workspace; events and outcomes with their days.
pub record LedgerWorkspace (F : Type 0) : Type 0 where
  pub states : List (PaperPositionState F)
  pub lifecycle_events : List (String × ℕ)
  pub trade_outcomes : List (String × ℕ)
  pub review_followups : List ReviewFollowup

pub data AggregateNote : Type 0 where
  reference_marks_missing : AggregateNote
  incomplete_mark_coverage : List String → AggregateNote

pub data AttentionReason : Type 0 where
  missing_mark_coverage open_followups closed_without_outcome : AttentionReason

pub record DailyPaperSummary (F : Type 0) : Type 0 where
  pub summary_date : ℕ
  pub open_position_state_ids : List String
  pub closed_position_state_ids : List String
  pub cancelled_position_state_ids : List String
  pub lifecycle_event_ids : List String
  pub trade_outcome_ids : List String
  pub open_review_followup_ids : List String
  pub open_position_count : ℕ
  pub closed_position_count : ℕ
  pub cancelled_position_count : ℕ
  pub aggregate_pnl_placeholder : Option (PnLPlaceholder F)
  pub notes : List AggregateNote
  pub attention_reasons : List AttentionReason

-- `reference_marks_by_symbol.get(symbol)`
abbrev pub mark_of : {F : Type 0} → List (String × F) → String → Option F
mark_of [] symbol = none
mark_of (entry ∷ marks) symbol =
    if str_eq entry.0 symbol then some entry.1 else mark_of marks symbol

abbrev is_open_followup : ReviewFollowupStatus → Bool
is_open_followup ReviewFollowupStatus.open_ = true
is_open_followup _ = false

abbrev dated : ℕ → List (String × ℕ) → List String
dated day artifacts = map (λ a. a.0) (filter (λ a. a.1 == day) artifacts)

module _ {F : Type 0} (float : Float F) (marks : List (String × F)) where
  -- A mark, a quantity and an entry price are there.
  abbrev pub is_priced : PaperPositionState F → Bool
  is_priced s =
      is_some (mark_of marks s.symbol)
      && (is_some s.quantity && is_some s.entry_reference_price_usd)

  -- What one open position adds to the unrealized total.
  abbrev move_of : PaperPositionState F → Option F → Option F → Option F → F
  move_of s (some mark) (some quantity) (some entry) =
      float.times quantity (signed_move float s.side entry mark)
  move_of s _ _ _ = float.of_int (pos 0)

  -- The loop over the open positions: the total, and the symbols that are not priced.
  unfoldable pub accumulate : F → List (PaperPositionState F) → F × List String
  accumulate total [] = (total, [])
  accumulate total (s ∷ states) =
      let skipped = accumulate total states in
      let added =
        accumulate
          (float.plus total
            (move_of s (mark_of marks s.symbol) s.quantity s.entry_reference_price_usd))
          states in
      if is_priced s then added else (skipped.0, s.symbol ∷ skipped.1)

  abbrev aggregate_placeholder : PaperPositionState F → F → PnLPlaceholder F
  aggregate_placeholder first total = record {
    entry_reference_price_usd = first.entry_reference_price_usd;
    current_or_exit_price_usd = mark_of marks first.symbol;
    unrealized_pnl_usd = some total;
    realized_pnl_usd = none;
    complete = true;
  }

  unfoldable pub priced_aggregate :
      PaperPositionState F → F → Result (Option (PnLPlaceholder F) × List AggregateNote)
  unfolding validate_placeholder
  priced_aggregate first total = do
    placeholder ← validate_placeholder float (aggregate_placeholder first total)
    ok (some placeholder, [])

  -- The aggregate of a book whose first open position is `first`.
  unfoldable pub aggregate_open :
      PaperPositionState F
      → F × List String
      → Result (Option (PnLPlaceholder F) × List AggregateNote)
  unfolding priced_aggregate
  aggregate_open first accumulated =
      if not (is_empty accumulated.1)
      then ok (none, incomplete_mark_coverage (sorted_set accumulated.1) ∷ [])
      else if not (is_some first.entry_reference_price_usd)
          || not (is_some (mark_of marks first.symbol))
      then ok (none, reference_marks_missing ∷ [])
      else priced_aggregate first accumulated.0

  -- `_aggregate_daily_placeholder`
  unfoldable pub aggregate_daily_placeholder :
      List (PaperPositionState F) → Result (Option (PnLPlaceholder F) × List AggregateNote)
  unfolding accumulate aggregate_open
  aggregate_daily_placeholder [] = ok (none, [])
  aggregate_daily_placeholder (first ∷ rest) =
      if is_empty marks
      then ok (none, reference_marks_missing ∷ [])
      else aggregate_open first (accumulate (float.of_int (pos 0)) (first ∷ rest))

  abbrev ids_of : List (PaperPositionState F) → List String
  ids_of states = map (λ s. s.paper_position_state_id) states

  abbrev reason_if : Bool → AttentionReason → List AttentionReason
  reason_if test reason = if test then reason ∷ [] else []

  unfoldable pub generate_daily_paper_summary : LedgerWorkspace F → ℕ → Result (DailyPaperSummary F)
  unfolding aggregate_daily_placeholder
  generate_daily_paper_summary workspace summary_date =
      let open_states = filter (λ s. is_open s.state) workspace.states in
      let closed_states = filter (λ s. is_closed s.state) workspace.states in
      let cancelled_states = filter (λ s. is_cancelled s.state) workspace.states in
      let followups = filter (λ f. is_open_followup f.status) workspace.review_followups in
      do
        aggregate ← aggregate_daily_placeholder open_states
        ok (record {
          summary_date = summary_date;
          open_position_state_ids = ids_of open_states;
          closed_position_state_ids = ids_of closed_states;
          cancelled_position_state_ids = ids_of cancelled_states;
          lifecycle_event_ids = dated summary_date workspace.lifecycle_events;
          trade_outcome_ids = dated summary_date workspace.trade_outcomes;
          open_review_followup_ids = map (λ f. f.review_followup_id) followups;
          open_position_count = length open_states;
          closed_position_count = length closed_states;
          cancelled_position_count = length cancelled_states;
          aggregate_pnl_placeholder = aggregate.0;
          notes = aggregate.1;
          attention_reasons =
              reason_if (not (is_some aggregate.0) && not (is_empty open_states))
                missing_mark_coverage
              ++ (reason_if (not (is_empty followups)) open_followups
                  ++ reason_if (any (λ s. is_empty s.trade_outcome_ids) closed_states)
                      closed_without_outcome);
        })
