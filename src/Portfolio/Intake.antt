-- ===== src/Portfolio/Intake.antt =====
-- The candidate intake of `build_portfolio_selection`: each signal is rejected with a reason, or
-- becomes a candidate.
pub mod Candidates
use ai_native_hedge_fund_ch.Prelude.{
  String, Bool, true, false, Option, none, some, List, [], ◌∷◌, ◌++◌, not, map, is_empty, truthy,
  sorted_set, if◌then◌else◌,
}
use ai_native_hedge_fund_ch.Schemas.Enums.{
  SignalStatus, ResearchStance, PositionSide, long, short, candidate, mixed, monitor, positive,
}
use ai_native_hedge_fund_ch.Portfolio.Inputs.{
  SupportingEvidenceLink, ResearchBrief, EvidenceAssessment, Signal, LoadedPortfolioInputs,
  find_research_brief, find_evidence_assessment, supporting_links_from_hypothesis, target_horizon,
}
use ai_native_hedge_fund_ch.Portfolio.Decisions.{
  Identity, ReasonCode, ConstructionDecision, signal_status_ineligible, non_directional_stance,
  missing_symbol, missing_supporting_evidence, build_rejected_construction_decision,
}

-- `_CandidateContext`
pub record CandidateContext (F : Type 0) : Type 0 where
  pub signal : Signal F
  pub side : PositionSide
  pub research_brief : Option ResearchBrief
  pub evidence_assessment : Option EvidenceAssessment
  pub evidence_links : List SupportingEvidenceLink
  pub evidence_span_ids : List String
  pub supporting_evidence_link_ids : List String
  pub research_artifact_ids : List String
  pub horizon : String

pub data Screening (F : Type 0) : Type 0 where
  excluded : ReasonCode → Bool → List String → Screening F
  eligible : CandidateContext F → Screening F

-- `signal.status in {SignalStatus.CANDIDATE, SignalStatus.APPROVED}`
unfoldable pub is_open_status : SignalStatus → Bool
is_open_status candidate = true
is_open_status SignalStatus.approved = true
is_open_status _ = false

-- `signal.stance in {ResearchStance.MIXED, ResearchStance.MONITOR}`
unfoldable pub is_non_directional : ResearchStance → Bool
is_non_directional mixed = true
is_non_directional monitor = true
is_non_directional _ = false

unfoldable pub side_of_stance : ResearchStance → PositionSide
side_of_stance positive = long
side_of_stance _ = short

-- `not company_ticker`
abbrev pub has_symbol : Option String → Bool
has_symbol none = false
has_symbol (some ticker) = truthy ticker

abbrev brief_ids : Option ResearchBrief → List String
brief_ids none = []
brief_ids (some brief) = brief.research_brief_id ∷ []

abbrev assessment_ids : Option EvidenceAssessment → List String
assessment_ids none = []
assessment_ids (some assessment) = assessment.evidence_assessment_id ∷ []

module _ {F : Type 0} (inputs : LoadedPortfolioInputs F) where
  -- The links of the brief if there is one, else those of the hypothesis.
  unfoldable pub evidence_links_of : Signal F → List SupportingEvidenceLink
  unfolding find_research_brief supporting_links_from_hypothesis
  evidence_links_of signal = elim (find_research_brief inputs signal) [
    | none ↦ supporting_links_from_hypothesis inputs signal
    | some brief ↦ brief.supporting_evidence_links
  ]

  unfoldable pub candidate_context : Signal F → CandidateContext F
  unfolding evidence_links_of find_evidence_assessment target_horizon side_of_stance sorted_set
  candidate_context signal =
      let brief = find_research_brief inputs signal in
      let assessment = find_evidence_assessment inputs signal in
      let links = evidence_links_of signal in
      record {
        signal = signal;
        side = side_of_stance signal.stance;
        research_brief = brief;
        evidence_assessment = assessment;
        evidence_links = links;
        evidence_span_ids = sorted_set (map (λ link. link.evidence_span_id) links);
        supporting_evidence_link_ids =
            sorted_set (map (λ link. link.supporting_evidence_link_id) links);
        research_artifact_ids = sorted_set (
            signal.hypothesis_id
            ∷ (signal.research_artifact_ids ++ (brief_ids brief ++ assessment_ids assessment)));
        horizon = target_horizon inputs signal;
      }

  -- The guards of the intake loop, in the order of the code.
  unfoldable pub screen : Signal F → Screening F
  unfolding candidate_context is_open_status is_non_directional
  screen signal =
      if not (is_open_status signal.status)
      then excluded signal_status_ineligible true (signal.signal_id ∷ [])
      else if is_non_directional signal.stance
      then excluded non_directional_stance false (signal.signal_id ∷ [])
      else if not (has_symbol inputs.company_ticker)
      then excluded missing_symbol true (signal.signal_id ∷ [])
      else if is_empty (evidence_links_of signal)
      then excluded missing_supporting_evidence true (signal.signal_id ∷ signal.hypothesis_id ∷ [])
      else eligible (candidate_context signal)

  -- The rejections of the intake loop.
  unfoldable pub intake_rejections : Identity → List (Signal F) → List ConstructionDecision
  unfolding screen build_rejected_construction_decision
  intake_rejections ids [] = []
  intake_rejections ids (signal ∷ rest) =
      let others = intake_rejections ids rest in
      elim (screen signal) [
        | eligible context ↦ others
        | excluded code blocking artifacts ↦
            build_rejected_construction_decision ids {F = F} signal.signal_id
              (record {
                reason_code = code;
                blocking = blocking;
                related_constraint_ids = [];
                related_artifact_ids = artifacts;
              }
                ∷ [])
              []
            ∷ others
      ]

  -- The candidates of the intake loop, in the order of the signals.
  unfoldable pub intake_candidates : List (Signal F) → List (CandidateContext F)
  unfolding screen
  intake_candidates [] = []
  intake_candidates (signal ∷ rest) =
      let others = intake_candidates rest in
      elim (screen signal) [
        | eligible context ↦ context ∷ others
        | excluded code blocking artifacts ↦ others
      ]
