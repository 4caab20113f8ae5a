-- ===== src/PaperLedger/Operations/Balance.antt =====
-- The ledger of a position: the quantities that its entries book, against the quantity it states.
use ai_native_hedge_fund_ch.Prelude.{
  ℕ, ◌≡◌, refl, sym, Bool, true, false, Option, none, some, List, [], ◌∷◌, ◌++◌, arith, All, ok,
  ok_injective, >>=-eq-ok, inl, inr, ◌⊎◌, if◌then◌else◌,
}
use ai_native_hedge_fund_ch.Prelude.Int.{pos, ◌*ℤ◌, int_laws}
use ai_native_hedge_fund_ch.PyFloat.{Float, milli}
use ai_native_hedge_fund_ch.PaperLedger.Records.{
  PaperPositionStateStatus, PositionLifecycleEventType, PaperPositionState, PaperLedgerEntry,
  simulated_fill_placeholder, mark_updated, approval_admitted, is_closed, is_terminal,
  validate_state,
}
use ai_native_hedge_fund_ch.PaperLedger.Lifecycle.{
  LedgerIds, AdmitApprovedTradeRequest, AdmitApprovedTradeResponse, RecordLifecycleEventResponse,
  or_else, new_state_from_event, ledger_deltas_for_event, admission_guards, admitted_state,
}
use ai_native_hedge_fund_ch.PaperLedger.Operations.{admit_approved_trade, state_after_event}
use ai_native_hedge_fund_ch.PaperLedger.Operations.Transitions.{event-IsRecorded}
use ai_native_hedge_fund_ch.PaperLedger.Operations.History.{
  Position, Timed, admitted, position_after, record_on, record_events,
}

-- Sums and differences without rounding, as they are for moderate whole quantities.
pub record HasExactSums {F : Type 0} (float : Float F) : Type 0 where
  pub zero_plus : (x : F) → float.plus (float.of_int (pos 0)) x ≡ x
  pub plus_minus : (x y : F) → float.plus x (float.minus y x) ≡ y
  pub plus_negate : (x : F) → float.plus x (float.negate x) ≡ float.of_int (pos 0)

pub milli-HasExactSums : HasExactSums milli
unfolding milli ◌*ℤ◌
milli-HasExactSums = record {
  zero_plus = λ x. omega int_laws;
  plus_minus = λ x y. omega int_laws;
  plus_negate = λ x. omega int_laws;
}

abbrev is_fill : PositionLifecycleEventType → Bool
is_fill simulated_fill_placeholder = true
is_fill _ = false

-- Only a fill brings a quantity.
abbrev pub BringsQuantityByFill : {F : Type 0} → Timed F → Type 0
BringsQuantityByFill event = (is_fill event.0.event_type ≡ true) ⊎ (event.0.quantity ≡ none)

module _ {F : Type 0} (float : Float F) where
  abbrev zero_units : F
  zero_units = float.of_int (pos 0)

  abbrev or_zero : Option F → F
  or_zero none = zero_units
  or_zero (some quantity) = quantity

  abbrev booked : F → Option F → F
  booked total none = total
  booked total (some delta) = float.plus total delta

  -- The sum of the quantities that the entries book, in their order.
  unfoldable pub ledger_balance : F → List (PaperLedgerEntry F) → F
  ledger_balance total [] = total
  ledger_balance total (entry ∷ entries) =
      ledger_balance (booked total entry.quantity_delta) entries

  ledger_balance_snoc :
      (total : F) (entries : List (PaperLedgerEntry F)) (entry : PaperLedgerEntry F)
      → ledger_balance total (entries ++ entry ∷ [])
        ≡ booked (ledger_balance total entries) entry.quantity_delta
  unfolding ledger_balance
  ledger_balance_snoc total [] entry = refl
  ledger_balance_snoc total (x ∷ xs) entry =
      ledger_balance_snoc (booked total x.quantity_delta) xs entry

  -- Nothing once the position is closed, and its quantity otherwise.
  abbrev pub held : PaperPositionStateStatus → Option F → F
  held status quantity = if is_closed status then zero_units else or_zero quantity

  -- The ledger agrees with the position.
  abbrev pub IsInBalance : Position F → Type 0
  IsInBalance p = ledger_balance zero_units p.entries ≡ held p.state.state p.state.quantity

  live_is_held :
      (s : PaperPositionStateStatus) (e : PositionLifecycleEventType) (quantity : Option F)
      → is_terminal s ≡ false
      → held s quantity ≡ or_zero quantity
  live_is_held s e quantity live =
      let open_ended : is_closed s ≡ false = ground (arith, live) in rw open_ended refl

  validate_state_same :
      (s : PaperPositionState F) {t : PaperPositionState F} → validate_state float s ≡ ok t → s ≡ t
  unfolding validate_state
  validate_state_same s h = ground (arith, h)

  module _ (exact : HasExactSums float) where
    delta_keeps_balance :
        (s : PaperPositionStateStatus) (e : PositionLifecycleEventType)
        (prior asked price : Option F)
        → is_terminal s ≡ false
        → (is_fill e ≡ true) ⊎ (asked ≡ none)
        → booked
            (or_zero prior)
            (ledger_deltas_for_event float e prior (or_else asked prior) price).0
          ≡ held (new_state_from_event s e) (or_else asked prior)
    unfolding ledger_deltas_for_event new_state_from_event
    delta_keeps_balance s simulated_fill_placeholder none none price live by = refl
    delta_keeps_balance s simulated_fill_placeholder none (some n) price live by = exact.zero_plus n
    delta_keeps_balance s simulated_fill_placeholder (some q) none price live by =
        exact.plus_minus q q
    delta_keeps_balance s simulated_fill_placeholder (some q) (some n) price live by =
        exact.plus_minus q n
    delta_keeps_balance s PositionLifecycleEventType.closed none asked price live by = refl
    delta_keeps_balance s PositionLifecycleEventType.closed (some q) asked price live by =
        exact.plus_negate q
    delta_keeps_balance s mark_updated prior asked price live (inl by) = absurd (cc)
    delta_keeps_balance s mark_updated prior asked price live (inr by) =
        rw by (ground (arith, live))
    delta_keeps_balance s PositionLifecycleEventType.cancelled prior asked price live (inl by) =
        absurd (cc)
    delta_keeps_balance s PositionLifecycleEventType.cancelled prior asked price live (inr by) =
        rw by refl
    delta_keeps_balance s approval_admitted prior asked price live (inl by) = absurd (cc)
    delta_keeps_balance s approval_admitted prior asked price live (inr by) =
        rw by (sym (live_is_held s approval_admitted prior live))

    module _ (ids : LedgerIds) where
      event-IsInBalance :
          (event : Timed F) (p : Position F) {r : RecordLifecycleEventResponse F}
          → BringsQuantityByFill event
          → record_on float ids event p ≡ ok r
          → IsInBalance p
          → IsInBalance (position_after p r)
      unfolding state_after_event
      event-IsInBalance event p {r} by h balanced =
          let request = event.0 in
          let recorded = event-IsRecorded float ids request event.1 p.trade p.state h in
          let status =
            live_is_held p.state.state request.event_type p.state.quantity recorded.live in
          rw
            (
              recorded.updated,
              ledger_balance_snoc zero_units p.entries r.paper_ledger_entry,
              balanced,
              status,
              recorded.entered,
            )
            (delta_keeps_balance p.state.state request.event_type p.state.quantity request.quantity
              request.reference_price_usd recorded.live by)

      events-IsInBalance :
          (events : List (Timed F)) (p : Position F) {last : Position F}
          → All BringsQuantityByFill events
          → record_events float ids events p ≡ ok last
          → IsInBalance p
          → IsInBalance last
      unfolding record_events
      events-IsInBalance [] p by h balanced = rw (← ok_injective h) balanced
      events-IsInBalance (event ∷ events) p by h balanced =
          let (r, recorded, rest) = >>=-eq-ok (record_on float ids event p) _ h in
          events-IsInBalance events (position_after p r) by.1 rest
            (event-IsInBalance event p by.0 recorded balanced)

      admitted-IsInBalance :
          (request : AdmitApprovedTradeRequest F) (now : ℕ) {r : AdmitApprovedTradeResponse F}
          → admit_approved_trade float ids request now ≡ ok r
          → IsInBalance (admitted r)
      unfolding admit_approved_trade admitted_state ledger_balance
      admitted-IsInBalance request now {r} h =
          let (done, passed, rest) = >>=-eq-ok (admission_guards float ids request) _ h in
          let (state, valid, last) =
            >>=-eq-ok (validate_state float (admitted_state float ids request now)) _ rest in
          let same = validate_state_same (admitted_state float ids request now) valid in
          rw (← ok_injective last, ← same) (opening_balance request.paper_trade.quantity)
        where
          opening_balance : (quantity : Option F) → booked zero_units quantity ≡ or_zero quantity
          opening_balance none = refl
          opening_balance (some q) = exact.zero_plus q

      -- If sums and differences are exact, a trade was admitted, and a history of events was accepted
      -- in which only fills bring quantities, then the quantities that the entries of the ledger book
      -- add up to the quantity that the position states, and to nothing once it has been closed.
      pub history_in_balance :
          (request : AdmitApprovedTradeRequest F) (now : ℕ) (events : List (Timed F))
          → {r : AdmitApprovedTradeResponse F} {last : Position F}
          → admit_approved_trade float ids request now ≡ ok r
          → All BringsQuantityByFill events
          → record_events float ids events (admitted r) ≡ ok last
          → ledger_balance zero_units last.entries ≡ held last.state.state last.state.quantity
      history_in_balance request now events {r} admission by h =
          events-IsInBalance events (admitted r) by h (admitted-IsInBalance request now admission)
