-- ===== src/Portfolio/Proposal.antt =====
-- `default_portfolio_constraints` and `build_portfolio_proposal` of services/portfolio/construction.py.
use ai_native_hedge_fund_ch.Prelude.{ℕ, String, true, some, List, [], ◌∷◌, Result}
use ai_native_hedge_fund_ch.Prelude.Int.{pos}
use ai_native_hedge_fund_ch.PyFloat.{Float}
use ai_native_hedge_fund_ch.Schemas.Enums.{
  ConstraintType, PortfolioProposalStatus, gross_exposure, net_exposure, single_name, turnover,
}
use ai_native_hedge_fund_ch.Schemas.Portfolio.{
  PortfolioConstraint, PositionIdea, PortfolioExposureSummary, PortfolioProposal, validate_proposal,
}
use ai_native_hedge_fund_ch.Portfolio.Decisions.{Identity}

module _ {F : Type 0} where
  -- `make_id` derives the identifier from the type, the scope and the limit.
  unfoldable pub default_portfolio_constraints :
      Float F → (String → List String → String) → List (PortfolioConstraint F)
  default_portfolio_constraints float make_id =
      limit single_name "single_name" "single_name" "500.0" 500
      ∷ limit gross_exposure "gross_exposure" "portfolio" "1500.0" 1500
      ∷ limit net_exposure "net_exposure" "portfolio" "1000.0" 1000
      ∷ limit turnover "turnover" "portfolio" "1500.0" 1500
      ∷ []
    where
      limit : ConstraintType → String → String → String → ℕ → PortfolioConstraint F
      limit constraint_type type_value scope limit_text hard_limit = record {
        portfolio_constraint_id = make_id "constraint" (type_value ∷ scope ∷ limit_text ∷ []);
        constraint_type = constraint_type;
        hard_limit = some (float.of_int (pos hard_limit));
        unit = "bps";
        active = true;
      }

  unfoldable pub build_portfolio_proposal :
      Float F
      → Identity
      → F
      → List PositionIdea
      → List (PortfolioConstraint F)
      → PortfolioExposureSummary
      → ℕ
      → Result (PortfolioProposal F)
  build_portfolio_proposal float ids target_nav_usd ideas constraints exposure_summary now =
      validate_proposal float (record {
        portfolio_proposal_id = ids.proposal_id;
        target_nav_usd = target_nav_usd;
        position_ideas = ideas;
        constraints = constraints;
        risk_checks = [];
        exposure_summary = exposure_summary;
        blocking_issues = [];
        review_decision_ids = [];
        portfolio_selection_summary_id = some ids.summary_id;
        status = PortfolioProposalStatus.pending_review;
        updated_at = now;
      })
