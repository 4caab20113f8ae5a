-- ===== src/DataQuality/Proposals.antt =====
-- services/data_quality/service.py: the gate of generated portfolio proposals.
pub mod Admission
use ai_native_hedge_fund_ch.Prelude.{
  String, Bool, true, false, List, [], ◌∷◌, ◌++◌, any, all, filter, map, is_empty, is_some, not,
  ◌&&◌, ◌||◌, str_eq, Result, if◌then◌else◌,
}
use ai_native_hedge_fund_ch.Schemas.Enums.{pass, warn}
use ai_native_hedge_fund_ch.Schemas.Portfolio.{PositionIdea, PortfolioProposal}
use ai_native_hedge_fund_ch.DataQuality.{
  ProvenanceRecord, ContractViolation, RefusalReason, GateFindings, ValidationGateResult,
  QualitySeverity, when, provenance_failures, completeness_report, build_checks,
  finalize_gate_result,
}

-- The part of a component score that the gate reads.
pub record ComponentScore : Type 0 where
  pub signal_score_id : String
  pub source_feature_ids : List String

-- The part of a signal that the gate reads.
pub record GateSignal : Type 0 where
  pub signal_id : String
  pub feature_ids : List String
  pub lineage_feature_ids : List String
  pub component_scores : List ComponentScore
  pub provenance : ProvenanceRecord

-- The provenance that the records of the portfolio leave out, and the identifier that is derived
-- from a prefix, a name and a target.
pub record ProposalContext (F : Type 0) : Type 0 where
  pub idea_provenance : PositionIdea → ProvenanceRecord
  pub proposal_provenance : PortfolioProposal F → ProvenanceRecord
  pub make_canonical_id : String → String → String → String

-- `set(xs).issubset(set(ys))`
abbrev pub is_subset : List String → List String → Bool
is_subset xs ys = all (λ x. any (λ y. str_eq x y) ys) xs

-- `not signal.feature_ids or set(signal.lineage.feature_ids) != set(signal.feature_ids)`
unfoldable pub has_broken_lineage : GateSignal → Bool
has_broken_lineage s =
    is_empty s.feature_ids
    || not (
        is_subset s.lineage_feature_ids s.feature_ids
        && is_subset s.feature_ids s.lineage_feature_ids)

unfoldable pub is_invalid_score : GateSignal → ComponentScore → Bool
is_invalid_score s score =
    is_empty score.source_feature_ids || not (is_subset score.source_feature_ids s.feature_ids)

-- `idea.signal_id in signals_by_id`
unfoldable pub is_loaded : List GateSignal → PositionIdea → Bool
is_loaded signals idea = any (λ s. str_eq s.signal_id idea.signal_id) signals

module _ {F : Type 0} (context : ProposalContext F) where
  unfoldable pub violation :
      String → String → String → String → RefusalReason → List String → ContractViolation
  violation code contract_name target_type target_id refusal_reason offending_field_paths = record {
    contract_violation_id = context.make_canonical_id "cviol" code target_id;
    contract_name = contract_name;
    target_type = target_type;
    target_id = target_id;
    offending_field_paths = offending_field_paths;
    severity = QualitySeverity.high;
    blocking = true;
    refusal_reason = refusal_reason;
  }

  unfoldable pub signal_violations : GateSignal → List ContractViolation
  unfolding violation has_broken_lineage is_invalid_score
  signal_violations s =
      let missing = provenance_failures true s.provenance in
      when (not (is_empty missing)) (
        violation "portfolio_signal_provenance_missing"
          "portfolio_input_signal_requires_minimum_provenance" "signal" s.signal_id
          RefusalReason.missing_provenance missing)
      ++ when (has_broken_lineage s) (
          violation "portfolio_signal_lineage_broken"
            "portfolio_input_signal_requires_coherent_lineage" "signal" s.signal_id
            RefusalReason.broken_signal_lineage
            ("feature_ids" ∷ "lineage.feature_ids" ∷ "lineage.supporting_evidence_link_ids" ∷ []))
      ++ when (any (is_invalid_score s) s.component_scores) (
          violation "portfolio_signal_component_lineage_broken"
            "portfolio_input_signal_component_scores_require_feature_links" "signal" s.signal_id
            RefusalReason.broken_signal_lineage ("component_scores.source_feature_ids" ∷ []))

  unfoldable pub idea_violations : List GateSignal → PositionIdea → List ContractViolation
  unfolding violation is_loaded
  idea_violations signals idea =
      let missing = provenance_failures true (context.idea_provenance idea) in
      when (not (is_loaded signals idea)) (
        violation "position_idea_signal_missing" "position_idea_requires_loaded_signal"
          "position_idea" idea.position_idea_id RefusalReason.missing_required_artifact
          ("signal_id" ∷ []))
      ++ when (not (is_empty missing)) (
          violation "position_idea_provenance_missing" "position_idea_requires_minimum_provenance"
            "position_idea" idea.position_idea_id RefusalReason.missing_provenance missing)

  unfoldable pub own_violations : PortfolioProposal F → List ContractViolation
  unfolding violation
  own_violations p =
      let missing = provenance_failures true (context.proposal_provenance p) in
      when (not (is_empty missing)) (
        violation "portfolio_proposal_provenance_missing"
          "portfolio_proposal_requires_minimum_provenance" "portfolio_proposal"
          p.portfolio_proposal_id RefusalReason.missing_provenance missing)

  -- A loop that collects the violations of each element.
  abbrev pub collect : {A : Type 0} → (A → List ContractViolation) → List A → List ContractViolation
  collect of [] = []
  collect of (a ∷ rest) = of a ++ collect of rest

  unfoldable pub violations_of :
      List GateSignal → List PositionIdea → PortfolioProposal F → List ContractViolation
  violations_of signals ideas p =
      collect signal_violations signals
      ++ collect (idea_violations signals) ideas
      ++ own_violations p

  unfoldable pub proposal_findings :
      List GateSignal → List PositionIdea → PortfolioProposal F → GateFindings
  proposal_findings signals ideas p =
      let violations = violations_of signals ideas p in
      let of_type =
        λ (target_type : String). filter (λ v. str_eq v.target_type target_type) violations in
      record {
        gate_name = "portfolio_proposal";
        target_id = p.portfolio_proposal_id;
        issues = [];
        violations = violations;
        checks = build_checks false (
            record {
              check_code = "portfolio_input_signal_contracts";
              issues = [];
              violations = of_type "signal";
            }
            ∷ record {
              check_code = "portfolio_output_position_contracts";
              issues = [];
              violations = of_type "position_idea";
            }
            ∷ record {
              check_code = "portfolio_output_proposal_contracts";
              issues = [];
              violations = of_type "portfolio_proposal";
            }
            ∷ []);
        completeness_report =
            completeness_report
              (record { name = "signals"; present = not (is_empty signals) }
                ∷ record { name = "position_ideas"; present = true }
                ∷ record {
                  name = "portfolio_proposal.provenance.processing_time";
                  present = is_some (context.proposal_provenance p).processing_time;
                }
                ∷ [])
              (if is_empty signals then warn else pass);
        quarantine_on_blocking = false;
      }

  unfoldable pub validate_portfolio_proposal :
      List GateSignal → List PositionIdea → PortfolioProposal F → Bool → Result ValidationGateResult
  validate_portfolio_proposal signals ideas p raise_on_failure =
      finalize_gate_result (proposal_findings signals ideas p) raise_on_failure
