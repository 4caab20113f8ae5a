-- ===== src/Tests/Construction.antt =====
-- The properties of the construction, of its review and of the whole workflow, at concrete inputs.
use ai_native_hedge_fund_ch.Prelude.{◌≡◌, ◌↔◌, ◌⊎◌, none, some, [], ◌∷◌, map, filter, All}
use ai_native_hedge_fund_ch.PyFloat.{Milli, milli, milli-IsExact}
use ai_native_hedge_fund_ch.Portfolio.Exposure.{exposure_figures}
use ai_native_hedge_fund_ch.Portfolio.Limits.{projected_metric, final_exposures}
use ai_native_hedge_fund_ch.Portfolio.Limits.Within.{Within}
use ai_native_hedge_fund_ch.Portfolio.Selection.Safety.{proposal-Within_limits}
use ai_native_hedge_fund_ch.Portfolio.Selection.Weight.{IsSized, proposal-IsSized}
use ai_native_hedge_fund_ch.Risk.Checks.{IsCoherent}
use ai_native_hedge_fund_ch.Risk.Proposal.{ReviewContext}
use ai_native_hedge_fund_ch.Schemas.Enums.{is_fail}
use ai_native_hedge_fund_ch.Risk.Review.{RiskEvaluationResult, evaluate_portfolio_risk}
use ai_native_hedge_fund_ch.Risk.Review.Clear.{IsSound, IsBounded, IsBoundedIfAny, no_issues_iff}
use ai_native_hedge_fund_ch.Risk.Review.Coherent.{checks-IsCoherent}
use ai_native_hedge_fund_ch.PortfolioWorkflow.{review_data}
use ai_native_hedge_fund_ch.PortfolioWorkflow.Agreement.{workflow_agreement}
use ai_native_hedge_fund_ch.PortfolioWorkflow.EndToEnd.{trades_are_cleared}
use ai_native_hedge_fund_ch.Tests.Scenario.{
  ids, inputs, constraints, selection, nav, workflow_services, response, services, request,
  approval,
}
use ai_native_hedge_fund_ch.Tests.Runs.{
  distinct, built, workflow_run, proposed, one_idea, one_trade, chosen, chosen_member,
  chosen_directional, same_request,
}

proposal-Within_limits_example :
    (selection.position_ideas ≡ [])
    ⊎ All (Within milli (projected_metric (final_exposures selection.position_ideas))) constraints
proposal-Within_limits_example =
    proposal-Within_limits milli inputs ids 20 constraints distinct built

proposal-IsSized_example : IsSized milli inputs ids 20 constraints chosen
proposal-IsSized_example =
    proposal-IsSized milli inputs ids 20 constraints chosen milli-IsExact built chosen_member
      chosen_directional

context : ReviewContext Milli
context = record {
  constraint_set = none;
  constraint_results = [];
  construction_decisions = [];
  portfolio_selection_summary = none;
  signal_bundle = none;
  arbitration_decision = none;
  signal_conflicts = [];
  portfolio_attribution = none;
  stress_test_run = none;
  stress_test_results = [];
}

no_issues_iff_example :
    ((evaluate_portfolio_risk milli
        (chosen ∷ [])
        (some response.proposal)
        constraints
        (review_data inputs)
        context).issues
      ≡ [])
    ↔ (All (IsSound milli constraints (review_data inputs)) (chosen ∷ [])
        × IsBoundedIfAny milli constraints (some response.proposal))
no_issues_iff_example =
    no_issues_iff milli (chosen ∷ []) (some response.proposal) constraints (review_data inputs)
      context

abbrev reviewed : RiskEvaluationResult Milli
reviewed =
    evaluate_portfolio_risk milli (chosen ∷ []) (some response.proposal) constraints
      (review_data inputs) context

checks-IsCoherent_example :
    All IsCoherent reviewed.risk_checks
    × (reviewed.issues ≡ map (λ c. c.message) (filter (λ c. is_fail c.status) reviewed.risk_checks))
checks-IsCoherent_example =
    checks-IsCoherent milli (chosen ∷ []) (some response.proposal) constraints (review_data inputs)
      context

workflow_agreement_example :
    (response.proposal.blocking_issues ≡ [])
    ↔ All (IsSound milli constraints (review_data inputs)) response.selection.position_ideas
workflow_agreement_example =
    workflow_agreement milli workflow_services inputs ids 20 constraints nav distinct workflow_run
      one_idea

trades_are_cleared_example :
    All (IsSound milli constraints (review_data inputs)) response.selection.position_ideas
    × IsBounded milli constraints (exposure_figures response.selection.position_ideas)
trades_are_cleared_example =
    trades_are_cleared milli workflow_services inputs ids 20 constraints services nav
      (approval ∷ []) request 30 workflow_run same_request proposed one_trade
