-- ===== src/Tests/Arbitration.antt =====
-- The properties of the signal arbitration at the signals of the scenario.
use ai_native_hedge_fund_ch.Prelude.{
  ◌≤◌, ◌≡◌, refl, String, Option, some, ◌⊎◌, All, Elem, HasDistinctKeys, insert_by, sort_by,
  sorted_set,
}
use ai_native_hedge_fund_ch.Prelude.Int.{◌+ℤ◌, ◌-ℤ◌, ◌*ℤ◌}
use ai_native_hedge_fund_ch.PyFloat.{Milli, milli}
use ai_native_hedge_fund_ch.Schemas.Enums.{EvidenceGrade, same_stance}
use ai_native_hedge_fund_ch.Portfolio.Inputs.{Signal, EvidenceAssessment, LoadedPortfolioInputs}
use ai_native_hedge_fund_ch.SignalArbitration.Calibration.{
  ArbitrationCandidate, evidence_grade, freshness_state_at, exclusion, lineage_is_complete,
  clamp_unit, calibrate, build_signal_calibrations,
}
use ai_native_hedge_fund_ch.SignalArbitration.Conflicts.{
  validation_rank, signal_status_rank, evidence_grade_rank, freshness_rank, stances_oppose,
  support_conflicts, pair_conflict, pair_conflicts, conflicts_with, all_pair_conflicts,
  detect_signal_conflicts,
}
use ai_native_hedge_fund_ch.SignalArbitration.Decision.{
  ArbitrationOutcome, precedes, sort_candidates, duplicates, suppress_lower, suppress_from,
  suppressed_duplicate_signal_ids, prioritized, primary_of, build_arbitration_decision, arbitrate,
}
use ai_native_hedge_fund_ch.SignalArbitration.Decision.Order.{coarse_key, id_of}
use ai_native_hedge_fund_ch.SignalArbitration.Decision.Undisputed.{
  IsUsable, Disputes, arbitrate-IsUndisputed,
}
use ai_native_hedge_fund_ch.SignalArbitration.Decision.Primary.{
  IsEligible, primary_id, arbitrate_best,
}
use ai_native_hedge_fund_ch.Portfolio.Intake.Candidates.{IsTurnedAway}
use ai_native_hedge_fund_ch.PortfolioWorkflow.Arbitrated.{CompetesFirst, primary-CompetesFirst}
use ai_native_hedge_fund_ch.Tests.Scenario.{ids, inputs, make_id}

abbrev assessments : String → Option EvidenceAssessment
assessments hypothesis_id =
    some (record { evidence_assessment_id = "grade"; grade = EvidenceGrade.strong })

abbrev outcome : ArbitrationOutcome
outcome = arbitrate milli make_id "co" "2026-01-05" (some 20) assessments inputs.signals

abbrev arbitrated : LoadedPortfolioInputs Milli
arbitrated = record inputs {
  signal_bundle_id = some "bundle";
  arbitration_decision = some outcome.decision;
}

distinct_signals : HasDistinctKeys (λ s. s.signal_id) inputs.signals
distinct_signals = ((refl, tt), (tt, tt))

-- The stronger signal wins the place.
stronger_wins : primary_id outcome ≡ some "stronger"
unfolding arbitrate build_arbitration_decision primary_of prioritized
    suppressed_duplicate_signal_ids suppress_from suppress_lower duplicates sort_candidates precedes
    insert_by sort_by detect_signal_conflicts all_pair_conflicts conflicts_with pair_conflicts
    pair_conflict support_conflicts stances_oppose freshness_rank evidence_grade_rank
    signal_status_rank validation_rank build_signal_calibrations calibrate clamp_unit
    lineage_is_complete exclusion freshness_state_at evidence_grade same_stance milli ◌+ℤ◌ ◌-ℤ◌ ◌*ℤ◌
    sorted_set
stronger_wins = refl

arbitrate-IsUndisputed_example :
    (s : Signal Milli) × Elem s inputs.signals
    × (s.signal_id ≡ "stronger")
    × IsUsable (some 20) s
    × ((d : Signal Milli)
        → Elem d inputs.signals
        → IsUsable (some 20) d
        → ¬ Disputes assessments s d)
arbitrate-IsUndisputed_example =
    arbitrate-IsUndisputed assessments milli (some 20) make_id "co" "2026-01-05" inputs.signals
      stronger_wins

arbitrate_best_example :
    (top : ArbitrationCandidate Milli) × IsEligible milli (some 20) assessments inputs.signals top
    × (id_of top ≡ "stronger")
    × All
        (λ d. coarse_key top ≤ coarse_key d)
        (build_signal_calibrations milli (some 20) assessments inputs.signals).0
arbitrate_best_example =
    arbitrate_best milli (some 20) assessments make_id "co" "2026-01-05" inputs.signals
      distinct_signals stronger_wins

primary-CompetesFirst_example :
    ((s : Signal Milli) × Elem s inputs.signals
      × (s.signal_id ≡ "stronger")
      × IsTurnedAway arbitrated s)
    ⊎ CompetesFirst milli arbitrated ids "stronger"
primary-CompetesFirst_example =
    primary-CompetesFirst milli arbitrated ids make_id "co" "2026-01-05" (some 20) assessments
      distinct_signals refl stronger_wins
