-- ===== src/Portfolio/Decisions.antt =====
-- The construction decisions that services/portfolio/construction.py records for each signal.
use ai_native_hedge_fund_ch.Prelude.{String, Bool, true, false, Option, none, List, [], ◌∷◌, map}
use ai_native_hedge_fund_ch.Portfolio.Limits.{ConstraintResult}

pub data DecisionOutcome : Type 0 where
  included rejected : DecisionOutcome

pub data ReasonCode : Type 0 where
  signal_status_ineligible non_directional_stance missing_symbol missing_supporting_evidence :
      ReasonCode
  unresolved_opposing_tie higher_priority_conflict_unresolved portfolio_constraint_breach :
      ReasonCode
  lower_ranked_same_company_candidate : ReasonCode

pub record ProposalRejectionReason : Type 0 where
  pub reason_code : ReasonCode
  pub blocking : Bool
  pub related_constraint_ids : List String
  pub related_artifact_ids : List String

pub record ConstructionDecision : Type 0 where
  pub construction_decision_id : String
  pub signal_id : String
  pub decision_outcome : DecisionOutcome
  pub position_idea_id : Option String
  pub position_sizing_rationale_id : Option String
  pub constraint_result_ids : List String
  pub proposal_rejection_reasons : List ProposalRejectionReason

abbrev pub is_rejected : DecisionOutcome → Bool
is_rejected rejected = true
is_rejected included = false

-- The parameters that every identifier of one construction run is derived from. `make_id` stands
-- for `make_canonical_id`, a SHA-256 digest of its arguments.
pub record Identity : Type 0 where
  pub make_id : String → List String → String
  pub summary_id : String
  pub proposal_id : String
  pub constraint_set_id : String
  -- `as_of_time.isoformat()`
  pub as_of_text : String

module _ (ids : Identity) where
  unfoldable pub decision_id_of : String → String
  decision_id_of signal_id = ids.make_id "cdecision" (ids.summary_id ∷ signal_id ∷ [])

  -- The `constraint_result_id` of one subject and constraint.
  unfoldable pub result_id_of : String → String → String
  result_id_of subject_id constraint_id =
      ids.make_id "cresult" (ids.constraint_set_id ∷ subject_id ∷ constraint_id ∷ [])

  -- `_build_rejected_construction_decision`
  unfoldable pub build_rejected_construction_decision :
      {F : Type 0}
      → String
      → List ProposalRejectionReason
      → List (ConstraintResult F)
      → ConstructionDecision
  unfolding decision_id_of
  build_rejected_construction_decision signal_id reasons results = record {
    construction_decision_id = decision_id_of signal_id;
    signal_id = signal_id;
    decision_outcome = rejected;
    position_idea_id = none;
    position_sizing_rationale_id = none;
    constraint_result_ids = map (λ result. result.constraint_result_id) results;
    proposal_rejection_reasons = reasons;
  }
