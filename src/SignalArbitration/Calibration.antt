-- ===== src/SignalArbitration/Calibration.antt =====
-- `build_signal_calibrations`: the signals that are excluded, and the candidates with their scores.
use ai_native_hedge_fund_ch.Prelude.{
  ℕ, ◌-◌, ◌/◌, String, Bool, true, false, Option, none, some, List, [], ◌∷◌, ◌&&◌, not, is_empty,
  ltb, leb, if◌then◌else◌,
}
use ai_native_hedge_fund_ch.Prelude.Int.{pos, negsuc}
use ai_native_hedge_fund_ch.PyFloat.{Float}
use ai_native_hedge_fund_ch.Schemas.Enums.{
  SignalStatus, DerivedArtifactValidationStatus, EvidenceGrade, invalidated,
}
use ai_native_hedge_fund_ch.Portfolio.Inputs.{Signal, EvidenceAssessment}

pub data FreshnessState : Type 0 where
  fresh aging stale unknown : FreshnessState

pub data SignalExclusionReason : Type 0 where
  rejected_signal expired_signal invalidated_signal future_effective_at_as_of_time :
      SignalExclusionReason

pub record ExcludedSignal : Type 0 where
  pub signal_id : String
  pub reason : SignalExclusionReason

-- `ArbitrationCandidate`, with the figures of its calibration.
pub record ArbitrationCandidate (F : Type 0) : Type 0 where
  pub signal : Signal F
  pub evidence_assessment : Option EvidenceAssessment
  pub normalized_score : F
  pub absolute_strength : F
  pub uncertainty_score : F
  pub lineage_complete : Bool
  pub freshness_state : FreshnessState

-- `ArbitrationCandidate.evidence_grade`: the calibration's grade is that of the same assessment.
unfoldable pub evidence_grade : {F : Type 0} → ArbitrationCandidate F → Option EvidenceGrade
evidence_grade c = elim c.evidence_assessment [ none ↦ none | some a ↦ some a.grade ]

unfoldable pub freshness_state_at : Option ℕ → ℕ → FreshnessState
freshness_state_at none effective_at = unknown
freshness_state_at (some as_of_time) effective_at =
    let age_days = (as_of_time - effective_at) / 86400 in
    if ltb as_of_time effective_at
    then unknown
    else if leb age_days 1
    then fresh
    else if leb age_days 5
    then aging
    else stale

abbrev pub is_after : ℕ → Option ℕ → Bool
is_after time none = false
is_after time (some limit) = ltb limit time

abbrev pub is_invalidated : DerivedArtifactValidationStatus → Bool
is_invalidated invalidated = true
is_invalidated _ = false

abbrev pub status_exclusion : SignalStatus → Option SignalExclusionReason
status_exclusion SignalStatus.rejected = some rejected_signal
status_exclusion SignalStatus.expired = some expired_signal
status_exclusion _ = none

module _ {F : Type 0} where
  -- The three guards at the head of the loop, in the order of the code.
  unfoldable pub exclusion : Option ℕ → Signal F → Option SignalExclusionReason
  exclusion as_of_time signal = elim (status_exclusion signal.status) [
    | some reason ↦ some reason
    | none ↦
        if is_invalidated signal.validation_status
        then some invalidated_signal
        else if is_after signal.effective_at as_of_time
        then some future_effective_at_as_of_time
        else none
  ]

  unfoldable pub lineage_is_complete : Signal F → Bool
  lineage_is_complete signal =
      not (is_empty signal.feature_ids)
      && (not (is_empty signal.lineage_feature_ids)
          && (not (is_empty signal.lineage_supporting_evidence_link_ids)
              && not (is_empty signal.lineage_input_families)))

module _ {F : Type 0} (float : Float F) where
  -- `max(-1.0, min(1.0, x))`
  unfoldable pub clamp_unit : F → F
  clamp_unit x =
      let below = if float.gt (float.of_int (pos 1)) x then x else float.of_int (pos 1) in
      if float.gt below (float.of_int (negsuc 0)) then below else float.of_int (negsuc 0)

  abbrev uncertainty_or_one : Option F → F
  uncertainty_or_one none = float.of_int (pos 1)
  uncertainty_or_one (some u) = u

  module _ (as_of_time : Option ℕ)
      (assessments_by_hypothesis_id : String → Option EvidenceAssessment) where
    unfoldable pub calibrate : Signal F → ArbitrationCandidate F
    unfolding clamp_unit freshness_state_at lineage_is_complete
    calibrate signal = record {
      signal = signal;
      evidence_assessment = assessments_by_hypothesis_id signal.hypothesis_id;
      normalized_score = clamp_unit signal.primary_score;
      absolute_strength = float.magnitude (clamp_unit signal.primary_score);
      uncertainty_score = uncertainty_or_one signal.uncertainty;
      lineage_complete = lineage_is_complete signal;
      freshness_state = freshness_state_at as_of_time signal.effective_at;
    }

    -- The candidates and the excluded signals, each in the order of the signals.
    unfoldable pub build_signal_calibrations :
        List (Signal F) → List (ArbitrationCandidate F) × List ExcludedSignal
    build_signal_calibrations [] = ([], [])
    build_signal_calibrations (signal ∷ signals) =
        let rest = build_signal_calibrations signals in
        elim (exclusion as_of_time signal) [
          | some reason ↦
              (rest.0, record { signal_id = signal.signal_id; reason = reason } ∷ rest.1)
          | none ↦ (calibrate signal ∷ rest.0, rest.1)
        ]
