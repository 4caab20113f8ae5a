-- ===== src/DataQuality/PaperTrades.antt =====
-- services/data_quality/service.py: the gate of paper-trade requests and of their trades.
pub mod OwnTrades
pub mod Verdict
use ai_native_hedge_fund_ch.Prelude.{
  String, Bool, true, false, Option, none, some, List, [], ◌∷◌, ◌++◌, any, all, filter, map,
  is_empty, is_some, not, str_eq, Result, if◌then◌else◌,
}
use ai_native_hedge_fund_ch.Schemas.Enums.{pass, warn}
use ai_native_hedge_fund_ch.Schemas.Portfolio.{PortfolioProposal, PaperTrade}
use ai_native_hedge_fund_ch.PaperExecution.{is_approved_proposal, is_blocked}
use ai_native_hedge_fund_ch.DataQuality.{
  when, ProvenanceRecord, ContractViolation, CompletenessField, RefusalReason, CheckSpec,
  GateFindings, ValidationGateResult, QualitySeverity, provenance_failures, completeness_report,
  build_checks, finalize_gate_result,
}

-- The provenance of a trade, which the records of the portfolio leave out, and the identifier that
-- is derived from a prefix, a name and a target.
pub record GateContext (F : Type 0) : Type 0 where
  pub provenance : PaperTrade F → ProvenanceRecord
  pub make_canonical_id : String → String → String → String

module _ {F : Type 0} (context : GateContext F) where
  abbrev violation_id : String → String → String
  violation_id code target = context.make_canonical_id "cviol" code target

  unfoldable pub not_approved : PortfolioProposal F → ContractViolation
  not_approved p = record {
    contract_violation_id =
        violation_id "paper_trade_proposal_not_approved" p.portfolio_proposal_id;
    contract_name = "paper_trade_candidates_require_approved_portfolio_proposal";
    target_type = "portfolio_proposal";
    target_id = p.portfolio_proposal_id;
    offending_field_paths = "status" ∷ [];
    severity = QualitySeverity.high;
    blocking = true;
    refusal_reason = RefusalReason.invalid_review_state;
  }

  unfoldable pub still_blocked : PortfolioProposal F → ContractViolation
  still_blocked p = record {
    contract_violation_id =
        violation_id "paper_trade_blocking_risk_checks_present" p.portfolio_proposal_id;
    contract_name = "paper_trade_candidates_require_no_blocking_risk_checks";
    target_type = "portfolio_proposal";
    target_id = p.portfolio_proposal_id;
    offending_field_paths = "blocking_issues" ∷ "risk_checks" ∷ [];
    severity = QualitySeverity.high;
    blocking = true;
    refusal_reason = RefusalReason.invalid_review_state;
  }

  unfoldable pub proposal_violations : PortfolioProposal F → List ContractViolation
  unfolding not_approved still_blocked
  proposal_violations p =
      when (not (is_approved_proposal p.status)) (not_approved p)
      ++ when (is_blocked p) (still_blocked p)

  -- A violation of a trade.
  unfoldable pub trade_violation :
      String → String → RefusalReason → List String → PaperTrade F → ContractViolation
  trade_violation code contract_name refusal_reason offending_field_paths t = record {
    contract_violation_id = violation_id code t.paper_trade_id;
    contract_name = contract_name;
    target_type = "paper_trade";
    target_id = t.paper_trade_id;
    offending_field_paths = offending_field_paths;
    severity = QualitySeverity.high;
    blocking = true;
    refusal_reason = refusal_reason;
  }

  -- `trade.position_idea_id in known_position_ids`
  unfoldable pub is_known_position : PortfolioProposal F → PaperTrade F → Bool
  is_known_position p t =
      any (λ idea. str_eq idea.position_idea_id t.position_idea_id) p.position_ideas

  unfoldable pub link_violations : PortfolioProposal F → PaperTrade F → List ContractViolation
  unfolding trade_violation is_known_position
  link_violations p t =
      when (not (str_eq t.portfolio_proposal_id p.portfolio_proposal_id)) (
        trade_violation "paper_trade_proposal_link_broken"
          "paper_trade_requires_matching_portfolio_proposal_link"
          RefusalReason.structurally_invalid_output ("portfolio_proposal_id" ∷ []) t)
      ++ when (not (is_known_position p t)) (
          trade_violation "paper_trade_position_link_missing"
            "paper_trade_requires_known_position_idea_link" RefusalReason.missing_required_artifact
            ("position_idea_id" ∷ []) t)

  unfoldable pub trade_violations : PortfolioProposal F → PaperTrade F → List ContractViolation
  unfolding link_violations trade_violation
  trade_violations p t =
      let missing = provenance_failures true (context.provenance t) in
      link_violations p t
      ++ when (not (is_empty missing)) (
          trade_violation "paper_trade_provenance_missing" "paper_trade_requires_minimum_provenance"
            RefusalReason.missing_provenance missing t)

  -- The loop over the trades.
  unfoldable pub all_trade_violations :
      PortfolioProposal F → List (PaperTrade F) → List ContractViolation
  unfolding trade_violations
  all_trade_violations p [] = []
  all_trade_violations p (t ∷ trades) = trade_violations p t ++ all_trade_violations p trades

  abbrev pub given : Option (List (PaperTrade F)) → List (PaperTrade F)
  given none = []
  given (some trades) = trades

  unfoldable pub completeness_fields :
      PortfolioProposal F → Option (List (PaperTrade F)) → List CompletenessField
  completeness_fields p trades =
      record {
        name = "portfolio_proposal.status_approved";
        present = is_approved_proposal p.status;
      }
      ∷ record { name = "portfolio_proposal.blocking_issues_clear"; present = not (is_blocked p) }
      ∷ (if is_some trades
          then record { name = "proposed_trades"; present = not (is_empty (given trades)) } ∷ []
          else [])

  unfoldable pub gate_findings : PortfolioProposal F → Option (List (PaperTrade F)) → GateFindings
  gate_findings p trades =
      let violations = proposal_violations p ++ all_trade_violations p (given trades) in
      let of_type =
        λ (target_type : String). filter (λ v. str_eq v.target_type target_type) violations in
      let fields = completeness_fields p trades in
      record {
        gate_name = if is_some trades then "paper_trade_output" else "paper_trade_request";
        target_id = p.portfolio_proposal_id;
        issues = [];
        violations = violations;
        checks = build_checks (is_some trades) (
            record {
              check_code = "paper_trade_request_contracts";
              issues = [];
              violations = of_type "portfolio_proposal";
            }
            ∷ record {
              check_code = "paper_trade_output_contracts";
              issues = [];
              violations = of_type "paper_trade";
            }
            ∷ []);
        completeness_report =
            completeness_report fields (if all (λ f. f.present) fields then pass else warn);
        quarantine_on_blocking = is_some trades;
      }

  unfoldable pub validate_paper_trade_request :
      PortfolioProposal F → Option (List (PaperTrade F)) → Bool → Result ValidationGateResult
  validate_paper_trade_request p trades raise_on_failure =
      finalize_gate_result (gate_findings p trades) raise_on_failure
