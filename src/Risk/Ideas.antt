-- ===== src/Risk/Ideas.antt =====
-- The rules on one position idea, in `evaluate_portfolio_risk`.
use ai_native_hedge_fund_ch.Prelude.{
  String, Bool, true, false, Option, none, some, List, [], ◌∷◌, ◌++◌, ◌||◌, not, is_empty, truthy,
  if◌then◌else◌,
}
use ai_native_hedge_fund_ch.PyFloat.{Float}
use ai_native_hedge_fund_ch.Schemas.Enums.{
  SignalStatus, EvidenceGrade, warn, fail, medium, high, single_name, is_validated, strong,
  moderate, weak, insufficient,
}
use ai_native_hedge_fund_ch.Schemas.Portfolio.{PortfolioConstraint, PositionIdea, RiskCheck}
use ai_native_hedge_fund_ch.Portfolio.Inputs.{Signal, EvidenceAssessment, first_resolved}
use ai_native_hedge_fund_ch.Portfolio.Limits.{constraint_by_type}
use ai_native_hedge_fund_ch.Risk.Checks.{build_risk_check, unmeasured, against_limit}

abbrev pub is_candidate : SignalStatus → Bool
is_candidate SignalStatus.candidate = true
is_candidate _ = false

-- `not idea.signal_id or not idea.supporting_evidence_link_ids or not idea.selection_reason`
unfoldable pub is_incomplete : PositionIdea → Bool
is_incomplete idea =
    not (truthy idea.signal_id)
    || (is_empty idea.supporting_evidence_link_ids || not (truthy idea.selection_reason))

-- The two dictionaries that the review looks ideas up in.
pub record ReviewData (F : Type 0) : Type 0 where
  pub signals_by_id : String → Option (Signal F)
  pub evidence_assessments_by_id : String → Option EvidenceAssessment

-- `_find_evidence_assessment` of the risk engine.
unfoldable pub evidence_of_idea :
    {F : Type 0} → ReviewData F → PositionIdea → Option EvidenceAssessment
unfolding first_resolved
evidence_of_idea d idea = first_resolved d.evidence_assessments_by_id idea.research_artifact_ids

module _ {F : Type 0} where
  unfoldable pub completeness_checks : PositionIdea → List (RiskCheck F)
  completeness_checks idea =
      if is_incomplete idea
      then build_risk_check "position_idea" idea.position_idea_id "position_input_completeness" fail
          high true "Position idea is missing signal linkage, evidence linkage, or rationale."
          unmeasured
        ∷ []
      else []

  unfoldable pub signal_checks : PositionIdea → Option (Signal F) → List (RiskCheck F)
  signal_checks idea none =
      build_risk_check "position_idea" idea.position_idea_id "missing_signal" fail high true
        "Referenced signal was not found for the position idea." unmeasured
      ∷ []
  signal_checks idea (some signal) =
      if is_candidate signal.status || not (is_validated signal.validation_status)
      then build_risk_check "position_idea" idea.position_idea_id "signal_review_maturity" warn
          medium false "Position idea relies on a candidate or unvalidated signal." unmeasured
        ∷ []
      else []

  unfoldable pub grade_checks : PositionIdea → EvidenceGrade → List (RiskCheck F)
  grade_checks idea strong = []
  grade_checks idea moderate =
      build_risk_check "position_idea" idea.position_idea_id "moderate_research_support" warn medium
        false "Evidence support is only moderate." unmeasured
      ∷ []
  grade_checks idea weak =
      build_risk_check "position_idea" idea.position_idea_id "weak_research_support" fail high true
        "Evidence assessment grade is too weak for portfolio inclusion." unmeasured
      ∷ []
  grade_checks idea insufficient =
      build_risk_check "position_idea" idea.position_idea_id "weak_research_support" fail high true
        "Evidence assessment grade is too weak for portfolio inclusion." unmeasured
      ∷ []

  unfoldable pub evidence_checks : PositionIdea → Option EvidenceAssessment → List (RiskCheck F)
  unfolding grade_checks
  evidence_checks idea none = []
  evidence_checks idea (some assessment) = grade_checks idea assessment.grade

module _ {F : Type 0} (float : Float F) where
  -- The single-name limit, at the first active constraint of that type.
  unfoldable pub single_name_checks :
      PositionIdea → Option (PortfolioConstraint F) → List (RiskCheck F)
  single_name_checks idea none = []
  single_name_checks idea (some constraint) = elim constraint.hard_limit [
    | none ↦ []
    | some limit ↦
        if float.gt (float.of_int idea.proposed_weight_bps) limit
        then build_risk_check "position_idea" idea.position_idea_id "single_name_weight_limit" fail
            high true "Position weight exceeds the single-name limit."
            (against_limit constraint (float.of_int idea.proposed_weight_bps) limit)
          ∷ []
        else []
  ]

  -- The body of the loop over the ideas.
  unfoldable pub idea_checks :
      List (PortfolioConstraint F) → ReviewData F → PositionIdea → List (RiskCheck F)
  idea_checks constraints d idea =
      completeness_checks idea
      ++ (single_name_checks idea (constraint_by_type constraints single_name)
          ++ (signal_checks idea (d.signals_by_id idea.signal_id)
              ++ evidence_checks idea (evidence_of_idea d idea)))

  -- The loop over the ideas.
  unfoldable pub all_idea_checks :
      List (PortfolioConstraint F) → ReviewData F → List PositionIdea → List (RiskCheck F)
  all_idea_checks constraints d [] = []
  all_idea_checks constraints d (idea ∷ ideas) =
      idea_checks constraints d idea ++ all_idea_checks constraints d ideas
