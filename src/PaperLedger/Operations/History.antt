-- ===== src/PaperLedger/Operations/History.antt =====
-- A position over a history of events, each recorded on what the one before it left.
use ai_native_hedge_fund_ch.Prelude.{
  ℕ, ◌≡◌, refl, ap, ◌∙◌, Bool, true, false, List, [], ◌∷◌, ◌++◌, ◌||◌, Result, ok, ◌>>=◌, >>=-eq-ok,
}
use ai_native_hedge_fund_ch.PyFloat.{Float}
use ai_native_hedge_fund_ch.Schemas.Portfolio.{PaperTrade}
use ai_native_hedge_fund_ch.PaperLedger.Records.{
  PaperPositionStateStatus, PositionLifecycleEventType, PaperPositionState, PaperLedgerEntry,
  is_terminal,
}
use ai_native_hedge_fund_ch.PaperLedger.Lifecycle.{
  LedgerIds, AdmitApprovedTradeResponse, RecordLifecycleEventRequest, RecordLifecycleEventResponse,
  is_closing, new_state_from_event,
}
use ai_native_hedge_fund_ch.PaperLedger.Operations.{state_after_event, record_lifecycle_event}
use ai_native_hedge_fund_ch.PaperLedger.Operations.Transitions.{event-IsRecorded}

-- A trade, its position, and the entries of the ledger so far.
pub record Position (F : Type 0) : Type 0 where
  pub trade : PaperTrade F
  pub state : PaperPositionState F
  pub entries : List (PaperLedgerEntry F)

-- A request and the time at which the service works on it.
abbrev pub Timed : Type 0 → Type 0
Timed F = RecordLifecycleEventRequest F × ℕ

module _ {F : Type 0} where
  abbrev pub admitted : AdmitApprovedTradeResponse F → Position F
  admitted r = record {
    trade = r.updated_paper_trade;
    state = r.paper_position_state;
    entries = r.paper_ledger_entry ∷ [];
  }

  abbrev pub position_after : Position F → RecordLifecycleEventResponse F → Position F
  position_after p r = record {
    trade = r.updated_paper_trade;
    state = r.updated_paper_position_state;
    entries = p.entries ++ r.paper_ledger_entry ∷ [];
  }

abbrev is_cancelling : PositionLifecycleEventType → Bool
is_cancelling PositionLifecycleEventType.cancelled = true
is_cancelling _ = false

-- The event ends the life of the position.
abbrev pub is_ending : PositionLifecycleEventType → Bool
is_ending e = is_closing e || is_cancelling e

ending_is_terminal :
    (s : PaperPositionStateStatus) (e : PositionLifecycleEventType)
    → is_ending e ≡ true
    → is_terminal (new_state_from_event s e) ≡ true
unfolding new_state_from_event
ending_is_terminal s PositionLifecycleEventType.closed h = refl
ending_is_terminal s PositionLifecycleEventType.cancelled h = refl
ending_is_terminal s PositionLifecycleEventType.simulated_fill_placeholder h = absurd (cc)
ending_is_terminal s PositionLifecycleEventType.mark_updated h = absurd (cc)
ending_is_terminal s PositionLifecycleEventType.approval_admitted h = absurd (cc)

module _ {F : Type 0} (float : Float F) (ids : LedgerIds) where
  abbrev pub record_on : Timed F → Position F → Result (RecordLifecycleEventResponse F)
  record_on event p = record_lifecycle_event float ids event.0 event.1 p.trade p.state

  -- The events of one position in their order; the first refusal ends the history.
  unfoldable pub record_events : List (Timed F) → Position F → Result (Position F)
  record_events [] p = ok p
  record_events (event ∷ events) p =
      let continue = record_events events in do r ← record_on event p; continue (position_after p r)

  nothing_after_end :
      (events : List (Timed F)) (p : Position F) {last : Position F}
      → is_terminal p.state.state ≡ true
      → record_events events p ≡ ok last
      → events ≡ []
  unfolding record_events
  nothing_after_end [] p ended h = refl
  nothing_after_end (event ∷ events) p ended h =
      let (r, recorded, rest) = >>=-eq-ok (record_on event p) _ h in
      let live = (event-IsRecorded float ids event.0 event.1 p.trade p.state recorded).live in
      absurd (cc (live, ended))

  -- If a whole history of events is accepted, and one of the events closes or cancels the position,
  -- then that event is the last one.
  pub ending_is_last :
      (before : List (Timed F)) (event : Timed F) (after : List (Timed F)) (p : Position F)
      → {last : Position F} → is_ending event.0.event_type ≡ true
      → record_events (before ++ event ∷ after) p ≡ ok last
      → after ≡ []
  unfolding record_events state_after_event
  ending_is_last [] event after p ending h =
      let (r, recorded, rest) = >>=-eq-ok (record_on event p) _ h in
      let updated = (event-IsRecorded float ids event.0 event.1 p.trade p.state recorded).updated in
      nothing_after_end after (position_after p r)
        (ap (λ s. is_terminal s.state) updated
          ∙ ending_is_terminal p.state.state event.0.event_type ending)
        rest
  ending_is_last (first ∷ before) event after p ending h =
      let (r, recorded, rest) = >>=-eq-ok (record_on first p) _ h in
      ending_is_last before event after (position_after p r) ending rest
