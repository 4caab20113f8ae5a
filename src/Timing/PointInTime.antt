-- ===== src/Timing/PointInTime.antt =====
-- Nothing is used before it is published: documents and derived artifacts at a decision cutoff.
use ai_native_hedge_fund_ch.Prelude.{
  ℕ, ◌+◌, ◌≤◌, ◌≡◌, refl, ap, true, false, none, some, List, [], ◌∷◌, ltb, leb, arith, All,
  Bool-cases, inl, inr, ok,
}
use ai_native_hedge_fund_ch.Timing.Calendar.{
  LocalTime, MarketCalendarEvent, Zone, local_leb, local_ltb, is_session_override,
  override_for_date, regular_session_bounds, open_time, opens_on, classify_us_equities_session,
  classify_local, kind_within, pre_market_open,
}
use ai_native_hedge_fund_ch.Timing.NextOpen.{IsFirstOpen, next_open_first}
use ai_native_hedge_fund_ch.Timing.Availability.{
  AvailabilityWindow, publication_rule, DecisionCutoff, is_pre_market, document_available_from,
  resolve_document_window, latest_from, derive_availability, is_available_by,
}

-- The wall clock follows the instants: an instant whose wall clock is at or before one of the day,
-- from 04:00 on and so after any change of the clocks, is at or before that one's instant.
pub record IsOrdered (zone : Zone) : Type 0 where
  pub in_order :
      (instant : ℕ) (wall : LocalTime)
      → local_leb (zone.to_local instant) wall ≡ true
      → pre_market_open ≤ wall.time
      → instant ≤ zone.to_utc wall

weaken :
    {n m : ℕ}
    → n ≤ m
    → (ws : List AvailabilityWindow) → All (λ v. v.available_from ≤ n) ws
    → All (λ v. v.available_from ≤ m) ws
weaken le [] h = tt
weaken le (v ∷ ws) h = (omega (arith, h.0), weaken le ws h.1)

latest_bounds :
    (best : ℕ) (windows : List AvailabilityWindow)
    → (best ≤ latest_from best windows)
      × All (λ w. w.available_from ≤ latest_from best windows) windows
unfolding latest_from
latest_bounds best [] = (omega arith, tt)
latest_bounds best (w ∷ windows) = elim (Bool-cases (ltb best w.available_from)) [
  | inl e ↦
      let rec = latest_bounds w.available_from windows in
      let up : latest_from w.available_from windows ≤ latest_from best (w ∷ windows) =
        rw e (omega arith) in
      (ground (arith, rec.0), (omega (arith, up, rec.0), weaken up windows rec.1))
  | inr e ↦
      let rec = latest_bounds best windows in
      let up : latest_from best windows ≤ latest_from best (w ∷ windows) = rw e (omega arith) in
      (omega (arith, up, rec.0), (ground (arith, up, rec.0), weaken up windows rec.1))
]

-- If an availability is derived from its inputs without an anomaly and the derived artifact counts
-- as available by a cutoff, then each input became available no later than the information time of
-- that cutoff.
pub derived_inputs_visible :
    (windows : List AvailabilityWindow) (fallback_time : ℕ) (cutoff : DecisionCutoff) (buffer : ℕ)
    → (derive_availability windows fallback_time).1 ≡ []
    → is_available_by (derive_availability windows fallback_time).0 cutoff buffer ≡ true
    → All (λ w. w.available_from ≤ cutoff.eligible_information_time) windows
unfolding derive_availability is_available_by
derived_inputs_visible [] fallback_time cutoff buffer clean visible = tt
derived_inputs_visible (w ∷ windows) fallback_time cutoff buffer clean visible =
    let latest = latest_from w.available_from windows in
    let bounds = latest_bounds w.available_from windows in
    elim (Bool-cases (leb latest fallback_time)) [
      | inr e ↦ absurd (cc (rw e at clean))
      | inl e ↦
          let early : latest ≤ cutoff.eligible_information_time = ground (arith, rw e at visible) in
          (omega (arith, bounds.0), weaken early windows bounds.1)
    ]

module _ (zone : Zone) (overrides : List MarketCalendarEvent) where
  pre_market_later :
      (now : LocalTime)
      → is_session_override (override_for_date overrides now.date) ≡ false
      → is_pre_market (classify_local zone overrides now).session_kind ≡ true
      → ((classify_local zone overrides now).open_at
          ≡ some (
              zone.to_utc
                (regular_session_bounds zone now.date
                  (override_for_date overrides now.date)).open_at))
        × (local_leb now
              (regular_session_bounds zone now.date (override_for_date overrides now.date)).open_at
            ≡ true)
  unfolding classify_local kind_within local_leb local_ltb regular_session_bounds
  pre_market_later now plain h = ground (arith, plain)

  -- The search starts one second later, so what it finds is later than the publication.
  found_later :
      (publication_time : ℕ) (now found : LocalTime)
      → IsFirstOpen zone overrides now now.date found
      → local_leb now found ≡ true
  unfolding opens_on local_leb regular_session_bounds
  found_later publication_time now found r = ground (arith, r.is_open, r.time, r.bound)

  available_from_later :
      (publication_time : ℕ)
      → IsOrdered zone
      → ((date : ℕ) → pre_market_open ≤ open_time zone (override_for_date overrides date))
      → is_session_override (override_for_date overrides (zone.to_local publication_time).date)
        ≡ false
      → (available_from : ℕ) × (document_available_from zone publication_time overrides
          ≡ ok available_from)
        × (publication_time ≤ available_from)
  unfolding document_available_from classify_us_equities_session regular_session_bounds
  available_from_later publication_time ordered opens plain =
      let now = zone.to_local publication_time in
      elim (Bool-cases (is_pre_market (classify_local zone overrides now).session_kind)) [
        | inl e ↦
            let (open_at, later) = pre_market_later now plain e in
            let wall =
              (regular_session_bounds zone now.date
                (override_for_date overrides now.date)).open_at in
            (
              zone.to_utc wall,
              rw (e, open_at) refl,
              ordered.in_order publication_time wall later (opens now.date),
            )
        | inr e ↦
            let next = zone.to_local (publication_time + 1) in
            let (found, answer, first) = next_open_first zone (publication_time + 1) overrides in
            let early : pre_market_open ≤ found.time =
              rw (ap (λ (w : LocalTime). w.time) first.time) (opens found.date) in
            let later =
              ordered.in_order (publication_time + 1) found
                (found_later publication_time next found first) early in
            (zone.to_utc found, rw (e, answer) refl, omega (arith, later))
      ]

  -- If the wall clock follows the instants, no open of a day is before 04:00, and no override of
  -- the publication's date sets the kind of the session, then a document has an availability
  -- window, and the window does not start before the publication.
  pub document_not_early :
      (publication_time : ℕ)
      → IsOrdered zone
      → ((date : ℕ) → pre_market_open ≤ open_time zone (override_for_date overrides date))
      → is_session_override (override_for_date overrides (zone.to_local publication_time).date)
        ≡ false
      → (window : AvailabilityWindow) × (resolve_document_window zone publication_time overrides
          ≡ ok window)
        × (publication_time ≤ window.available_from)
  unfolding resolve_document_window
  document_not_early publication_time ordered opens plain =
      let (available_from, answer, later) =
        available_from_later publication_time ordered opens plain in
      (
        record {
          available_from = available_from;
          available_until = none;
          availability_basis = publication_rule;
          market_session = some (classify_us_equities_session zone publication_time overrides);
        },
        rw (resolve_document_window, answer) refl,
        later,
      )
