-- ===== src/Timing/Availability.antt =====
-- services/timing/service.py: when a document, a derived artifact or a price bar becomes usable.
use ai_native_hedge_fund_ch.Prelude.{
  ℕ, ◌+◌, ◌*◌, Bool, true, false, Option, none, some, List, [], ◌∷◌, not, ◌&&◌, ltb, leb, Result,
  ok, err, if◌then◌else◌,
}
use ai_native_hedge_fund_ch.Timing.Calendar.{
  MarketCalendarEvent, MarketSession, MarketSessionKind, Zone, pre_market,
  classify_us_equities_session, next_us_equities_open,
}

pub data AvailabilityBasis : Type 0 where
  publication_rule derived_from_inputs market_data_close compatibility_fallback : AvailabilityBasis

pub data TimingAnomalyKind : Type 0 where
  upstream_availability_after_derived_artifact missing_upstream_availability : TimingAnomalyKind

pub record AvailabilityWindow : Type 0 where
  pub available_from : ℕ
  pub available_until : Option ℕ
  pub availability_basis : AvailabilityBasis
  pub market_session : Option MarketSession

pub record DecisionCutoff : Type 0 where
  pub decision_time : ℕ
  pub decision_session_kind : MarketSessionKind
  pub eligible_information_time : ℕ

abbrev pub is_pre_market : MarketSessionKind → Bool
is_pre_market pre_market = true
is_pre_market _ = false

-- A time or the exception of an assertion.
abbrev asserted : Option ℕ → Result ℕ
asserted none = err "assertion failed"
asserted (some time) = ok time

module _ (zone : Zone) where
  -- The earliest use of a document: the open of its day for one that appears before it, else the
  -- next open. The next open exists for every timestamp; `err` stands for a search without end.
  unfoldable pub document_available_from : ℕ → List MarketCalendarEvent → Result ℕ
  document_available_from publication_time overrides =
      let session = classify_us_equities_session zone publication_time overrides in
      if is_pre_market session.session_kind
      then asserted session.open_at
      else elim (next_us_equities_open zone (publication_time + 1) overrides) [
        | none ↦ err "no open"
        | some open_at ↦ ok open_at
      ]

  -- `resolve_publication_window` for the document rule, whose delay is 0 minutes.
  unfoldable pub resolve_document_window : ℕ → List MarketCalendarEvent → Result AvailabilityWindow
  unfolding document_available_from
  resolve_document_window publication_time overrides =
      elim (document_available_from publication_time overrides) [
        | err message ↦ err message
        | ok available_from ↦ ok (record {
          available_from = available_from;
          available_until = none;
          availability_basis = publication_rule;
          market_session = some (classify_us_equities_session zone publication_time overrides);
        })
      ]

  -- The same for the rule of the price bars.
  unfoldable pub build_price_bar_availability : ℕ → List MarketCalendarEvent → AvailabilityWindow
  build_price_bar_availability bar_time overrides = record {
    available_from = bar_time;
    available_until = none;
    availability_basis = market_data_close;
    market_session = some (classify_us_equities_session zone bar_time overrides);
  }

  unfoldable pub build_decision_cutoff : ℕ → List MarketCalendarEvent → DecisionCutoff
  build_decision_cutoff decision_time overrides = record {
    decision_time = decision_time;
    decision_session_kind =
        (classify_us_equities_session zone decision_time overrides).session_kind;
    eligible_information_time = decision_time;
  }

-- `max(window.available_from for window in windows)`, from a first window on.
unfoldable pub latest_from : ℕ → List AvailabilityWindow → ℕ
latest_from best [] = best
latest_from best (window ∷ windows) =
    let further = latest_from window.available_from windows in
    let same = latest_from best windows in if ltb best window.available_from then further else same

abbrev derived_window : ℕ → AvailabilityBasis → AvailabilityWindow
derived_window available_from availability_basis = record {
  available_from = available_from;
  available_until = none;
  availability_basis = availability_basis;
  market_session = none;
}

-- `_derive_availability`, with the kinds of its anomalies.
unfoldable pub derive_availability :
    List AvailabilityWindow → ℕ → AvailabilityWindow × List TimingAnomalyKind
derive_availability [] fallback_time =
    (derived_window fallback_time compatibility_fallback, missing_upstream_availability ∷ [])
derive_availability (window ∷ windows) fallback_time =
    let latest_upstream = latest_from window.available_from windows in
    if leb latest_upstream fallback_time
    then (derived_window latest_upstream derived_from_inputs, [])
    else (
      derived_window fallback_time compatibility_fallback,
      upstream_availability_after_derived_artifact ∷ [],
    )

abbrev ends_before : Option ℕ → ℕ → Bool
ends_before none time = false
ends_before (some until) time = ltb until time

unfoldable pub is_available_by : AvailabilityWindow → DecisionCutoff → ℕ → Bool
is_available_by window cutoff extra_buffer_minutes =
    not (ends_before window.available_until cutoff.decision_time)
    && leb (window.available_from + extra_buffer_minutes * 60) cutoff.eligible_information_time
