-- ===== src/Portfolio/Inputs.antt =====
-- What services/portfolio/loaders.py hands to the construction, and the lookups in it.
use ai_native_hedge_fund_ch.Prelude.{
  ℕ, String, Bool, true, false, Option, none, some, List, [], ◌∷◌, str_eq,
}
use ai_native_hedge_fund_ch.Schemas.Enums.{
  SignalStatus, ResearchStance, DerivedArtifactValidationStatus, EvidenceGrade,
}

pub record SupportingEvidenceLink : Type 0 where
  pub supporting_evidence_link_id : String
  pub evidence_span_id : String

pub record ResearchBrief : Type 0 where
  pub research_brief_id : String
  pub supporting_evidence_links : List SupportingEvidenceLink

pub record EvidenceAssessment : Type 0 where
  pub evidence_assessment_id : String
  pub grade : EvidenceGrade

pub record Hypothesis : Type 0 where
  pub supporting_evidence_links : List SupportingEvidenceLink
  pub time_horizon : String

pub record Signal (F : Type 0) : Type 0 where
  pub signal_id : String
  pub hypothesis_id : String
  pub status : SignalStatus
  pub stance : ResearchStance
  pub validation_status : DerivedArtifactValidationStatus
  pub primary_score : F
  pub effective_at : ℕ
  pub research_artifact_ids : List String
  pub signal_family : String
  -- `confidence.uncertainty`, if there is a confidence
  pub uncertainty : Option F
  pub feature_ids : List String
  pub uncertainties : List String
  pub lineage_feature_ids : List String
  pub lineage_supporting_evidence_link_ids : List String
  pub lineage_input_families : List String

pub record ArbitrationDecision : Type 0 where
  pub arbitration_decision_id : String
  pub selected_primary_signal_id : Option String

-- The dictionaries are functions; a missing company and a missing ticker are both `none`.
pub record LoadedPortfolioInputs (F : Type 0) : Type 0 where
  pub company_id : String
  pub company_ticker : Option String
  pub signals : List (Signal F)
  pub signal_bundle_id : Option String
  pub arbitration_decision : Option ArbitrationDecision
  pub research_briefs_by_id : String → Option ResearchBrief
  pub evidence_assessments_by_id : String → Option EvidenceAssessment
  pub hypotheses_by_id : String → Option Hypothesis

-- The first artifact identifier of the list that the dictionary holds.
unfoldable pub first_resolved : {A : Type 0} → (String → Option A) → List String → Option A
first_resolved by_id [] = none
first_resolved by_id (artifact_id ∷ rest) = elim (by_id artifact_id) [
  | none ↦ first_resolved by_id rest
  | some found ↦ some found
]

module _ {F : Type 0} (inputs : LoadedPortfolioInputs F) (signal : Signal F) where
  unfoldable pub find_research_brief : Option ResearchBrief
  unfolding first_resolved
  find_research_brief = first_resolved inputs.research_briefs_by_id signal.research_artifact_ids

  unfoldable pub find_evidence_assessment : Option EvidenceAssessment
  unfolding first_resolved
  find_evidence_assessment =
      first_resolved inputs.evidence_assessments_by_id signal.research_artifact_ids

  unfoldable pub supporting_links_from_hypothesis : List SupportingEvidenceLink
  supporting_links_from_hypothesis = elim (inputs.hypotheses_by_id signal.hypothesis_id) [
    | none ↦ []
    | some hypothesis ↦ hypothesis.supporting_evidence_links
  ]

  unfoldable pub target_horizon : String
  target_horizon = elim (inputs.hypotheses_by_id signal.hypothesis_id) [
    | none ↦ "next_1_4_quarters"
    | some hypothesis ↦ hypothesis.time_horizon
  ]

-- Whether the arbitration chose this signal.
abbrev pub is_selected_primary : Option ArbitrationDecision → String → Bool
is_selected_primary none signal_id = false
is_selected_primary (some decision) signal_id = elim decision.selected_primary_signal_id [
  | none ↦ false
  | some primary ↦ str_eq primary signal_id
]

-- Whether the arbitration ran and withheld a primary signal.
abbrev pub withholds_primary : Option ArbitrationDecision → Bool
withholds_primary none = false
withholds_primary (some decision) = elim decision.selected_primary_signal_id [
  | none ↦ true
  | some primary ↦ false
]
