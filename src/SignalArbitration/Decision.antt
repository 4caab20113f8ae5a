-- ===== src/SignalArbitration/Decision.antt =====
-- `build_arbitration_decision`: the ranking, the suppressed duplicates and the primary signal.
pub mod Order
pub mod Disputes
pub mod Primary
pub mod Undisputed
use ai_native_hedge_fund_ch.Prelude.{
  ℕ, String, Bool, true, false, Option, none, some, List, [], ◌∷◌, ◌++◌, ◌&&◌, not, any, all,
  filter, is_empty, map, ltb, ◌==◌, str_lt, if◌then◌else◌, sort_by, insert_by,
}
use ai_native_hedge_fund_ch.PyFloat.{Float}
use ai_native_hedge_fund_ch.Schemas.Enums.{same_stance}
use ai_native_hedge_fund_ch.Portfolio.Inputs.{Signal, EvidenceAssessment, ArbitrationDecision}
use ai_native_hedge_fund_ch.SignalArbitration.Calibration.{
  ArbitrationCandidate, ExcludedSignal, evidence_grade, build_signal_calibrations,
}
use ai_native_hedge_fund_ch.SignalArbitration.Conflicts.{
  SignalConflict, SignalConflictKind, directional_disagreement, validation_rank, signal_status_rank,
  evidence_grade_rank, freshness_rank, is_member, detect_signal_conflicts,
}

-- The lists that the decision records besides the primary signal.
pub record ArbitrationOutcome : Type 0 where
  pub decision : ArbitrationDecision
  pub candidate_signal_ids : List String
  pub prioritized_signal_ids : List String
  pub suppressed_signal_ids : List String
  pub excluded_signals : List ExcludedSignal
  pub conflict_ids : List String

abbrev is_directional : SignalConflictKind → Bool
is_directional directional_disagreement = true
is_directional _ = false

-- A blocking directional conflict that the signal takes part in.
abbrev pub blocks : String → SignalConflict → Bool
blocks signal_id conflict =
    is_directional conflict.conflict_kind
    && (conflict.blocking && is_member signal_id conflict.signal_ids)

-- Equality of two sets of identifiers.
abbrev pub same_set : List String → List String → Bool
same_set xs ys = all (λ x. is_member x ys) xs && all (λ y. is_member y xs) ys

module _ {F : Type 0} (float : Float F) where
  -- `_candidate_sort_key(a) < _candidate_sort_key(b)`
  unfoldable pub precedes : ArbitrationCandidate F → ArbitrationCandidate F → Bool
  precedes a b =
      if not
        (validation_rank a.signal.validation_status == validation_rank b.signal.validation_status)
      then ltb (validation_rank a.signal.validation_status)
          (validation_rank b.signal.validation_status)
      else if not (signal_status_rank a.signal.status == signal_status_rank b.signal.status)
      then ltb (signal_status_rank a.signal.status) (signal_status_rank b.signal.status)
      else if not (evidence_grade_rank (evidence_grade a) == evidence_grade_rank (evidence_grade b))
      then ltb (evidence_grade_rank (evidence_grade a)) (evidence_grade_rank (evidence_grade b))
      else if not (float.eq a.uncertainty_score b.uncertainty_score)
      then float.gt b.uncertainty_score a.uncertainty_score
      else if not (freshness_rank a.freshness_state == freshness_rank b.freshness_state)
      then ltb (freshness_rank a.freshness_state) (freshness_rank b.freshness_state)
      else if not (float.eq a.absolute_strength b.absolute_strength)
      then float.gt a.absolute_strength b.absolute_strength
      else if not (a.signal.effective_at == b.signal.effective_at)
      then ltb b.signal.effective_at a.signal.effective_at
      else str_lt a.signal.signal_id b.signal.signal_id

  -- `sorted(candidates, key=_candidate_sort_key)`
  unfoldable pub sort_candidates : List (ArbitrationCandidate F) → List (ArbitrationCandidate F)
  unfolding sort_by insert_by precedes
  sort_candidates candidates = sort_by precedes candidates

module _ {F : Type 0} where
  -- The same stance and the same supporting evidence, of which there is some.
  unfoldable pub duplicates : ArbitrationCandidate F → ArbitrationCandidate F → Bool
  duplicates c lower =
      same_stance c.signal.stance lower.signal.stance
      && (not (is_empty c.signal.lineage_supporting_evidence_link_ids)
          && same_set c.signal.lineage_supporting_evidence_link_ids
              lower.signal.lineage_supporting_evidence_link_ids)

  -- The inner loop of `_suppressed_duplicate_signal_ids`.
  unfoldable pub suppress_lower :
      ArbitrationCandidate F → List String → List (ArbitrationCandidate F) → List String
  suppress_lower c suppressed [] = suppressed
  suppress_lower c suppressed (lower ∷ rest) =
      suppress_lower c
        (if not (is_member lower.signal.signal_id suppressed) && duplicates c lower
          then suppressed ++ lower.signal.signal_id ∷ []
          else suppressed)
        rest

  -- The outer loop.
  unfoldable pub suppress_from : List String → List (ArbitrationCandidate F) → List String
  suppress_from suppressed [] = suppressed
  suppress_from suppressed (c ∷ rest) =
      suppress_from
        (if is_member c.signal.signal_id suppressed
          then suppressed
          else suppress_lower c suppressed rest)
        rest

  unfoldable pub suppressed_duplicate_signal_ids : List (ArbitrationCandidate F) → List String
  suppressed_duplicate_signal_ids candidates = suppress_from [] candidates

  unfoldable pub prioritized : List (ArbitrationCandidate F) → List (ArbitrationCandidate F)
  prioritized ranked =
      filter (λ c. not (is_member c.signal.signal_id (suppressed_duplicate_signal_ids ranked)))
        ranked

  -- The top of the prioritized candidates, unless a blocking directional conflict involves it.
  unfoldable pub primary_of : List SignalConflict → List (ArbitrationCandidate F) → Option String
  primary_of conflicts [] = none
  primary_of conflicts (top ∷ rest) =
      if any (blocks top.signal.signal_id) conflicts then none else some top.signal.signal_id

module _ {F : Type 0} (float : Float F) (make_id : String → List String → String)
    (company_id as_of_text : String) where
  unfoldable pub build_arbitration_decision :
      List (ArbitrationCandidate F) → List ExcludedSignal → List SignalConflict → ArbitrationOutcome
  build_arbitration_decision candidates excluded_signals conflicts =
      let ranked = sort_candidates float candidates in
      record {
        decision = record {
          arbitration_decision_id = make_id "adec" (company_id ∷ as_of_text ∷ []);
          selected_primary_signal_id = primary_of conflicts (prioritized ranked);
        };
        candidate_signal_ids = map (λ c. c.signal.signal_id) ranked;
        prioritized_signal_ids = map (λ c. c.signal.signal_id) (prioritized ranked);
        suppressed_signal_ids = suppressed_duplicate_signal_ids ranked;
        excluded_signals = excluded_signals;
        conflict_ids = map (λ conflict. conflict.signal_conflict_id) conflicts;
      }

  -- The three stages of `run_signal_arbitration`, on the signals that the loader found. The service
  -- returns before them if there is none; they then select no primary.
  unfoldable pub arbitrate :
      Option ℕ → (String → Option EvidenceAssessment) → List (Signal F) → ArbitrationOutcome
  arbitrate as_of_time assessments signals =
      let calibrated = build_signal_calibrations float as_of_time assessments signals in
      build_arbitration_decision calibrated.0 calibrated.1
        (detect_signal_conflicts float make_id as_of_time calibrated.0)
