-- ===== src/PaperLedger/Operations/Validity.antt =====
-- When an event leaves a state that the loader accepts: a copy is not validated when it is made.
use ai_native_hedge_fund_ch.Prelude.{
  ℕ, ◌≡◌, refl, Bool, false, Option, none, some, ◌&&◌, not, is_some, arith, ok, Bool-cases, inl,
  inr,
}
use ai_native_hedge_fund_ch.PyFloat.{Float}
use ai_native_hedge_fund_ch.Schemas.Portfolio.{PaperTrade}
use ai_native_hedge_fund_ch.PaperLedger.Records.{
  PaperPositionState, PnLPlaceholder, is_open, is_terminal, is_bad_price, ends_before_start,
  validate_state,
}
use ai_native_hedge_fund_ch.PaperLedger.Lifecycle.{
  LedgerIds, RecordLifecycleEventRequest, RecordLifecycleEventResponse, or_else,
  new_state_from_event,
}
use ai_native_hedge_fund_ch.PaperLedger.Operations.{state_after_event, record_lifecycle_event}
use ai_native_hedge_fund_ch.PaperLedger.Operations.Transitions.{event-IsRecorded}

or_else_good :
    {A : Type 0} (bad : Option A → Bool) (a b : Option A)
    → bad a ≡ false
    → bad b ≡ false
    → bad (or_else a b) ≡ false
or_else_good bad none b ha hb = hb
or_else_good bad (some x) b ha hb = ha

module _ {F : Type 0} (float : Float F) where
  -- The checks of `validate_state`, each passed.
  record IsValid (s : PaperPositionState F) : Type 0 where
    pub quantity : is_bad_price float s.quantity ≡ false
    pub entry_price : is_bad_price float s.entry_reference_price_usd ≡ false
    pub latest_price : is_bad_price float s.latest_reference_price_usd ≡ false
    pub materialized : (is_some s.quantity && not (is_some s.entry_reference_price_usd)) ≡ false
    pub ordered : ends_before_start s.closed_at s.opened_at ≡ false
    pub ended : (is_terminal s.state && not (is_some s.closed_at)) ≡ false

  IsValid-validate : (s : PaperPositionState F) → IsValid s → validate_state float s ≡ ok s
  unfolding validate_state
  IsValid-validate s v =
      rw (v.quantity, v.entry_price, v.latest_price, v.materialized, v.ordered, v.ended) refl

  validate-IsValid :
      (s : PaperPositionState F) {t : PaperPositionState F}
      → validate_state float s ≡ ok t
      → IsValid s
  unfolding validate_state
  validate-IsValid s h = record {
    quantity = ground (arith, h);
    entry_price = ground (arith, h);
    latest_price = ground (arith, h);
    materialized = ground (arith, h);
    ordered = ground (arith, h);
    ended = ground (arith, h);
  }

  module _ (ids : LedgerIds) where
    after-IsValid :
        (request : RecordLifecycleEventRequest F) (now : ℕ) (trade_id : _)
        → (placeholder : Option (PnLPlaceholder F)) (state : PaperPositionState F) → IsValid state
        → is_bad_price float request.quantity ≡ false
        → is_bad_price float request.reference_price_usd ≡ false
        → (is_some request.quantity && not (is_some state.entry_reference_price_usd)) ≡ false
        → ends_before_start (some request.event_time) state.opened_at ≡ false
        → state.closed_at ≡ none
        → IsValid (state_after_event float ids request now trade_id placeholder state)
    unfolding state_after_event
    after-IsValid request now trade_id placeholder state v quantity price materialized later
          running =
        let new_state = new_state_from_event state.state request.event_type in
        record {
          quantity =
              or_else_good (is_bad_price float) request.quantity state.quantity quantity v.quantity;
          entry_price = v.entry_price;
          latest_price =
              or_else_good (is_bad_price float) request.reference_price_usd
                state.latest_reference_price_usd price v.latest_price;
          materialized =
              or_else_good (λ q. is_some q && not (is_some state.entry_reference_price_usd))
                request.quantity state.quantity materialized v.materialized;
          ordered = elim (Bool-cases (is_terminal new_state)) [
            | inl ends ↦
                let not_open : is_open new_state ≡ false = ground (arith, ends) in
                rw (ends, not_open) later
            | inr goes_on ↦ rw (goes_on, running) refl
          ];
          ended = elim (Bool-cases (is_terminal new_state)) [
            | inl ends ↦ rw ends refl
            | inr goes_on ↦ rw goes_on refl
          ];
        }

    -- If a state passes its validator and has not been closed, and an event is accepted whose quantity
    -- and price are positive or missing, which brings a quantity only to a position with an entry
    -- price, and which does not lie before the opening, then the new state passes its validator.
    pub event_keeps_valid :
        (request : RecordLifecycleEventRequest F) (now : ℕ) (trade : PaperTrade F)
        → (state : PaperPositionState F) {r : RecordLifecycleEventResponse F}
        → validate_state float state ≡ ok state
        → is_bad_price float request.quantity ≡ false
        → is_bad_price float request.reference_price_usd ≡ false
        → (is_some request.quantity && not (is_some state.entry_reference_price_usd)) ≡ false
        → ends_before_start (some request.event_time) state.opened_at ≡ false
        → state.closed_at ≡ none
        → record_lifecycle_event float ids request now trade state ≡ ok r
        → validate_state float r.updated_paper_position_state ≡ ok r.updated_paper_position_state
    event_keeps_valid request now trade state valid quantity price materialized later running h =
        let recorded = event-IsRecorded float ids request now trade state h in
        rw recorded.updated (
          IsValid-validate _ (
            after-IsValid request now trade.paper_trade_id recorded.placeholder state
              (validate-IsValid state valid) quantity price materialized later running))
