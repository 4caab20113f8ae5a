-- ===== src/PaperLedger/Operations/Transitions.antt =====
-- The life of a position as an abstract state machine, which `record_lifecycle_event` implements.
use ai_native_hedge_fund_ch.Prelude.{
  ℕ, ◌≡◌, refl, sym, ap, ◌∙◌, false, Option, none, some, inl, inr, ◌↔◌, arith, ok, ok_injective,
  >>=-eq-ok, Bool-cases, Result-cases,
}
use ai_native_hedge_fund_ch.PyFloat.{Float}
use ai_native_hedge_fund_ch.Schemas.Enums.{PositionSide}
use ai_native_hedge_fund_ch.Schemas.Portfolio.{PaperTrade}
use ai_native_hedge_fund_ch.PaperLedger.Records.{
  PaperPositionStateStatus, PositionLifecycleEventType, PnLPlaceholder, PaperPositionState,
  approved_pending_fill, open_, approval_admitted, simulated_fill_placeholder, mark_updated,
  is_terminal, is_bad_price, validate_placeholder,
}
use ai_native_hedge_fund_ch.PaperLedger.Lifecycle.{
  LedgerIds, RecordLifecycleEventRequest, RecordLifecycleEventResponse, is_admission, is_closing,
  or_else, new_state_from_event, build_placeholder_for_event, placeholder_at,
  ledger_deltas_for_event,
}
use ai_native_hedge_fund_ch.PaperLedger.Operations.{
  lifecycle_guards, state_after_event, record_lifecycle_event,
}

-- The edges of the machine: a position is pending or open until it is closed or cancelled.
pub data Transition
    : PaperPositionStateStatus
      → PositionLifecycleEventType
      → PaperPositionStateStatus
      → Type 0 where
  fill_pending : Transition approved_pending_fill simulated_fill_placeholder open_
  fill_open : Transition open_ simulated_fill_placeholder open_
  mark_pending : Transition approved_pending_fill mark_updated open_
  mark_open : Transition open_ mark_updated open_
  close_pending :
      Transition approved_pending_fill PositionLifecycleEventType.closed
        PaperPositionStateStatus.closed
  close_open : Transition open_ PositionLifecycleEventType.closed PaperPositionStateStatus.closed
  cancel_pending :
      Transition approved_pending_fill PositionLifecycleEventType.cancelled
        PaperPositionStateStatus.cancelled
  cancel_open :
      Transition open_ PositionLifecycleEventType.cancelled PaperPositionStateStatus.cancelled

edge_of :
    (s : PaperPositionStateStatus) (e : PositionLifecycleEventType)
    → is_terminal s ≡ false
    → is_admission e ≡ false
    → Transition s e (new_state_from_event s e)
unfolding new_state_from_event
edge_of approved_pending_fill simulated_fill_placeholder live follows = fill_pending
edge_of approved_pending_fill mark_updated live follows = mark_pending
edge_of approved_pending_fill PositionLifecycleEventType.closed live follows = close_pending
edge_of approved_pending_fill PositionLifecycleEventType.cancelled live follows = cancel_pending
edge_of approved_pending_fill approval_admitted live follows = absurd (cc)
edge_of open_ simulated_fill_placeholder live follows = fill_open
edge_of open_ mark_updated live follows = mark_open
edge_of open_ PositionLifecycleEventType.closed live follows = close_open
edge_of open_ PositionLifecycleEventType.cancelled live follows = cancel_open
edge_of open_ approval_admitted live follows = absurd (cc)
edge_of PaperPositionStateStatus.closed e live follows = absurd (cc)
edge_of PaperPositionStateStatus.cancelled e live follows = absurd (cc)

module _ {F : Type 0} (float : Float F) (ids : LedgerIds) where
  pub guards-eq-ok :
      (request : RecordLifecycleEventRequest F) (state : PaperPositionState F) {done : Unit}
      → lifecycle_guards float ids request state ≡ ok done
      → (is_admission request.event_type ≡ false) × (is_terminal state.state ≡ false)
  unfolding lifecycle_guards
  guards-eq-ok request state h = (ground (arith, h), ground (arith, h))

  -- What an accepted event has done to the state.
  pub record IsRecorded (request : RecordLifecycleEventRequest F) (now : ℕ) (trade : PaperTrade F)
      (state : PaperPositionState F) (r : RecordLifecycleEventResponse F) : Type 0 where
    pub follows : is_admission request.event_type ≡ false
    pub live : is_terminal state.state ≡ false
    pub placeholder : Option (PnLPlaceholder F)
    pub updated :
        r.updated_paper_position_state
        ≡ state_after_event float ids request now trade.paper_trade_id placeholder state
    pub entered :
        r.paper_ledger_entry.quantity_delta
        ≡ (ledger_deltas_for_event float request.event_type state.quantity
            (or_else request.quantity state.quantity)
            request.reference_price_usd).0

  pub event-IsRecorded :
      (request : RecordLifecycleEventRequest F) (now : ℕ) (trade : PaperTrade F)
      → (state : PaperPositionState F) {r : RecordLifecycleEventResponse F}
      → record_lifecycle_event float ids request now trade state ≡ ok r
      → IsRecorded request now trade state r
  unfolding record_lifecycle_event
  event-IsRecorded request now trade state h =
      let (done, passed, rest) = >>=-eq-ok (lifecycle_guards float ids request state) _ h in
      let (placeholder, built, last) =
        >>=-eq-ok
          (build_placeholder_for_event float trade.side (or_else request.quantity state.quantity)
            state.entry_reference_price_usd request.reference_price_usd request.event_type)
          _ rest in
      let (follows, live) = guards-eq-ok request state passed in
      record {
        follows = follows;
        live = live;
        placeholder = placeholder;
        updated = ap (λ x. x.updated_paper_position_state) (sym (ok_injective last));
        entered = ap (λ x. x.paper_ledger_entry.quantity_delta) (sym (ok_injective last));
      }

  recorded-Transition :
      (request : RecordLifecycleEventRequest F) (now : ℕ) (trade : PaperTrade F)
      → (state : PaperPositionState F) {r : RecordLifecycleEventResponse F}
      → record_lifecycle_event float ids request now trade state ≡ ok r
      → Transition state.state request.event_type r.updated_paper_position_state.state
  unfolding state_after_event
  recorded-Transition request now trade state h =
      let recorded = event-IsRecorded request now trade state h in
      rw (ap (λ s. s.state) recorded.updated)
        (edge_of state.state request.event_type recorded.live recorded.follows)

  placeholder_built :
      (side : PositionSide) (quantity entry price : Option F) (e : PositionLifecycleEventType)
      → is_bad_price float entry ≡ false
      → is_bad_price float price ≡ false
      → (p : Option (PnLPlaceholder F)) × (build_placeholder_for_event float side quantity entry
            price e
          ≡ ok p)
  unfolding build_placeholder_for_event validate_placeholder
  placeholder_built side quantity entry none e he hp = (none, refl)
  placeholder_built side none entry (some price) e he hp =
      (some (placeholder_at float side none entry price e), rw (he, hp) refl)
  placeholder_built side (some quantity) none (some price) e he hp =
      (some (placeholder_at float side (some quantity) none price e), rw hp refl)
  placeholder_built side (some quantity) (some entry) (some price) e he hp =
      elim (Bool-cases (is_closing e)) [
        | inl t ↦ (
          some (placeholder_at float side (some quantity) (some entry) price e),
          rw (he, hp, t) refl,
        )
        | inr f ↦ (
          some (placeholder_at float side (some quantity) (some entry) price e),
          rw (he, hp, f) refl,
        )
      ]

  Transition-edge :
      {s s' : PaperPositionStateStatus} {e : PositionLifecycleEventType}
      → Transition s e s'
      → (is_terminal s ≡ false) × (is_admission e ≡ false) × (new_state_from_event s e ≡ s')
  unfolding new_state_from_event
  Transition-edge fill_pending = (refl, refl, refl)
  Transition-edge fill_open = (refl, refl, refl)
  Transition-edge mark_pending = (refl, refl, refl)
  Transition-edge mark_open = (refl, refl, refl)
  Transition-edge close_pending = (refl, refl, refl)
  Transition-edge close_open = (refl, refl, refl)
  Transition-edge cancel_pending = (refl, refl, refl)
  Transition-edge cancel_open = (refl, refl, refl)

  edge_recorded :
      (request : RecordLifecycleEventRequest F) (now : ℕ) (trade : PaperTrade F)
      → (state : PaperPositionState F) → is_bad_price float request.reference_price_usd ≡ false
      → is_bad_price float state.entry_reference_price_usd ≡ false
      → is_terminal state.state ≡ false
      → is_admission request.event_type ≡ false
      → (r : RecordLifecycleEventResponse F) × (record_lifecycle_event float ids request now trade
            state
          ≡ ok r)
        × (r.updated_paper_position_state.state
            ≡ new_state_from_event state.state request.event_type)
  unfolding record_lifecycle_event lifecycle_guards state_after_event
  edge_recorded request now trade state price_ok entry_ok live follows =
      let (p, built) =
        placeholder_built trade.side (or_else request.quantity state.quantity)
          state.entry_reference_price_usd request.reference_price_usd request.event_type entry_ok
          price_ok in
      elim (Result-cases (record_lifecycle_event float ids request now trade state)) [
        | inl (r, recorded) ↦ (
          r,
          recorded,
          ap (λ s. s.state) (event-IsRecorded request now trade state recorded).updated,
        )
        | inr (message, refused) ↦ absurd (cc (rw (follows, live, built) at refused))
      ]

  -- With positive prices, or none, in the request and in the position's entry, an event of a position
  -- is accepted with a new state exactly if the machine has that edge: no event of a closed or
  -- cancelled position is, no second admission, and every other event leads where the edge leads.
  pub event_refines :
      (request : RecordLifecycleEventRequest F) (now : ℕ) (trade : PaperTrade F)
      → (state : PaperPositionState F) (new_state : PaperPositionStateStatus)
      → is_bad_price float request.reference_price_usd ≡ false
      → is_bad_price float state.entry_reference_price_usd ≡ false
      → ((r : RecordLifecycleEventResponse F) × (record_lifecycle_event float ids request now trade
              state
            ≡ ok r)
          × (r.updated_paper_position_state.state ≡ new_state))
        ↔ Transition state.state request.event_type new_state
  event_refines request now trade state new_state price_ok entry_ok = (
    λ (r, recorded, same). rw (← same) (recorded-Transition request now trade state recorded),
    λ edge.
        let (live, follows, leads) = Transition-edge edge in
        let (r, recorded, same) =
          edge_recorded request now trade state price_ok entry_ok live follows in
        (r, recorded, same ∙ leads),
  )
