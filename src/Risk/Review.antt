-- ===== src/Risk/Review.antt =====
-- `evaluate_portfolio_risk`: the rules in the order of the code, and the issues that block.
pub mod Coherent
pub mod Clear
use ai_native_hedge_fund_ch.Prelude.{String, Option, none, some, List, [], ◌++◌}
use ai_native_hedge_fund_ch.PyFloat.{Float}
use ai_native_hedge_fund_ch.Schemas.Portfolio.{
  PortfolioConstraint, PortfolioProposal, PositionIdea, RiskCheck,
}
use ai_native_hedge_fund_ch.Risk.Checks.{blocking_issues}
use ai_native_hedge_fund_ch.Risk.Ideas.{ReviewData, all_idea_checks}
use ai_native_hedge_fund_ch.Risk.Proposal.{
  ReviewContext, construction_context_checks, arbitration_checks, analysis_checks, exposure_checks,
  concentration_checks, stress_checks,
}

pub record RiskEvaluationResult (F : Type 0) : Type 0 where
  pub risk_checks : List (RiskCheck F)
  pub issues : List String

module _ {F : Type 0} (float : Float F) where
  -- The rules that run only for a proposal.
  unfoldable pub proposal_checks :
      List (PortfolioConstraint F)
      → ReviewContext F
      → Option (PortfolioProposal F)
      → List (RiskCheck F)
  proposal_checks constraints x none = []
  proposal_checks constraints x (some p) =
      exposure_checks float constraints p ++ (concentration_checks float p ++ stress_checks x p)

  unfoldable pub all_checks :
      List PositionIdea
      → Option (PortfolioProposal F)
      → List (PortfolioConstraint F)
      → ReviewData F
      → ReviewContext F
      → List (RiskCheck F)
  all_checks ideas proposal constraints d x =
      construction_context_checks ideas x proposal
      ++ (arbitration_checks x proposal
          ++ (analysis_checks x proposal
              ++ (all_idea_checks float constraints d ideas
                  ++ proposal_checks constraints x proposal)))

  unfoldable pub evaluate_portfolio_risk :
      List PositionIdea
      → Option (PortfolioProposal F)
      → List (PortfolioConstraint F)
      → ReviewData F
      → ReviewContext F
      → RiskEvaluationResult F
  evaluate_portfolio_risk ideas proposal constraints d x = record {
    risk_checks = all_checks ideas proposal constraints d x;
    issues = blocking_issues (all_checks ideas proposal constraints d x);
  }
