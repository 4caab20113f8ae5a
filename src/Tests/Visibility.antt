-- ===== src/Tests/Visibility.antt =====
-- The properties of availability at concrete inputs.
use ai_native_hedge_fund_ch.Prelude.{
  ℕ, ◌≤◌, ◌≡◌, refl, Bool-cases, inl, inr, none, List, [], ◌∷◌, ok, All, arith, ◌==◌, true, false,
}
use ai_native_hedge_fund_ch.Timing.Calendar.{
  pre_market_open, open_time, local_leb, override_for_date, is_session_override,
}
use ai_native_hedge_fund_ch.Timing.Availability.{
  AvailabilityWindow, DecisionCutoff, publication_rule, resolve_document_window, latest_from,
  derive_availability, is_available_by, build_decision_cutoff,
}
use ai_native_hedge_fund_ch.Timing.PointInTime.{
  IsOrdered, document_not_early, derived_inputs_visible,
}
use ai_native_hedge_fund_ch.Tests.Operations.{utc, overrides, friday}

utc-IsOrdered : IsOrdered utc
unfolding local_leb
utc-IsOrdered = record { in_order = λ instant wall h late. ground arith }

opens_late : (date : ℕ) → pre_market_open ≤ open_time utc (override_for_date overrides date)
unfolding open_time override_for_date
opens_late date = elim (Bool-cases (8 == date)) [
  | inl e ↦ rw e (omega arith)
  | inr e ↦ rw e (omega arith)
]

friday_plain : is_session_override (override_for_date overrides (utc.to_local friday).date) ≡ false
unfolding override_for_date
friday_plain = refl

document_not_early_example :
    (window : AvailabilityWindow) × (resolve_document_window utc friday overrides ≡ ok window)
    × (friday ≤ window.available_from)
document_not_early_example =
    document_not_early utc overrides friday utc-IsOrdered opens_late friday_plain

abbrev window : ℕ → AvailabilityWindow
window available_from = record {
  available_from = available_from;
  available_until = none;
  availability_basis = publication_rule;
  market_session = none;
}

abbrev windows : List AvailabilityWindow
windows = window 100 ∷ window 300 ∷ window 200 ∷ []

abbrev cutoff : DecisionCutoff
cutoff = build_decision_cutoff utc 400 []

no_anomaly : (derive_availability windows 350).1 ≡ []
unfolding derive_availability latest_from
no_anomaly = refl

visible : is_available_by (derive_availability windows 350).0 cutoff 1 ≡ true
unfolding derive_availability latest_from is_available_by build_decision_cutoff
visible = refl

derived_inputs_visible_example :
    All (λ w. w.available_from ≤ cutoff.eligible_information_time) windows
derived_inputs_visible_example = derived_inputs_visible windows 350 cutoff 1 no_anomaly visible
