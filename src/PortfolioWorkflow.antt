-- ===== src/PortfolioWorkflow.antt =====
-- `run_portfolio_workflow` of services/portfolio/service.py: from signals to a reviewed proposal.
pub mod Agreement
pub mod EndToEnd
pub mod Arbitrated
use ai_native_hedge_fund_ch.Prelude.{
  ℕ, String, Bool, Option, none, some, List, [], ◌∷◌, map, str_eq, Result, ok, ◌>>=◌, ◌>>◌,
  if◌then◌else◌,
}
use ai_native_hedge_fund_ch.PyFloat.{Float}
use ai_native_hedge_fund_ch.Schemas.Enums.{RiskCheckStatus}
use ai_native_hedge_fund_ch.Schemas.Portfolio.{PortfolioConstraint, PortfolioProposal, PositionIdea}
use ai_native_hedge_fund_ch.Portfolio.Inputs.{Signal, LoadedPortfolioInputs}
use ai_native_hedge_fund_ch.Portfolio.Limits.{ConstraintResult}
use ai_native_hedge_fund_ch.Portfolio.Exposure.{build_exposure_summary}
use ai_native_hedge_fund_ch.Portfolio.Decisions.{Identity}
use ai_native_hedge_fund_ch.Portfolio.Proposal.{build_portfolio_proposal}
use ai_native_hedge_fund_ch.Portfolio.Selection.{
  PortfolioSelectionBuildResult, build_portfolio_selection,
}
use ai_native_hedge_fund_ch.Risk.Ideas.{ReviewData}
use ai_native_hedge_fund_ch.Risk.Proposal.{ReviewContext}
use ai_native_hedge_fund_ch.Risk.Review.{RiskEvaluationResult, evaluate_portfolio_risk}

-- What the analysis service answers.
pub record Analysis : Type 0 where
  pub portfolio_attribution_id : String
  pub stress_test_run_id : String
  pub stress_test_results : List RiskCheckStatus

-- The two services that the workflow calls, and the conflicts that the loader found. The
-- data-quality service raises on a failure.
pub record WorkflowServices (F : Type 0) : Type 0 where
  pub validate_portfolio_proposal : PortfolioProposal F → Result (Unit {0})
  pub analyze_portfolio_proposal : PortfolioProposal F → List (ConstraintResult F) → Analysis
  pub signal_conflicts : List String

pub record RunPortfolioWorkflowResponse (F : Type 0) : Type 0 where
  pub proposal : PortfolioProposal F
  pub selection : PortfolioSelectionBuildResult F

module _ {F : Type 0} where
  -- `{signal.signal_id: signal for signal in inputs.signals}`: the last signal of an identifier.
  unfoldable pub signal_map : List (Signal F) → String → Option (Signal F)
  signal_map [] signal_id = none
  signal_map (signal ∷ signals) signal_id = elim (signal_map signals signal_id) [
    | some later ↦ some later
    | none ↦ if str_eq signal.signal_id signal_id then some signal else none
  ]

  unfoldable pub review_data : LoadedPortfolioInputs F → ReviewData F
  review_data inputs = record {
    signals_by_id = signal_map inputs.signals;
    evidence_assessments_by_id = inputs.evidence_assessments_by_id;
  }

  unfoldable pub review_context :
      LoadedPortfolioInputs F
      → Identity
      → PortfolioSelectionBuildResult F
      → Analysis
      → List String
      → ReviewContext F
  review_context inputs ids selection analysis signal_conflicts = record {
    constraint_set = some ids.constraint_set_id;
    constraint_results = selection.constraint_results;
    construction_decisions = map (λ d. d.construction_decision_id) selection.construction_decisions;
    portfolio_selection_summary = some ids.summary_id;
    signal_bundle = inputs.signal_bundle_id;
    arbitration_decision = elim inputs.arbitration_decision [
      | none ↦ none
      | some d ↦ some d.arbitration_decision_id
    ];
    signal_conflicts = signal_conflicts;
    portfolio_attribution = some analysis.portfolio_attribution_id;
    stress_test_run = some analysis.stress_test_run_id;
    stress_test_results = analysis.stress_test_results;
  }

module _ {F : Type 0} (float : Float F) (services : WorkflowServices F)
    (inputs : LoadedPortfolioInputs F) (ids : Identity) (now : ℕ) where
  -- The risk review of a proposal, in the context of its selection.
  unfoldable pub review_of :
      List (PortfolioConstraint F)
      → PortfolioSelectionBuildResult F
      → PortfolioProposal F
      → RiskEvaluationResult F
  review_of constraints selection proposal =
      evaluate_portfolio_risk float selection.position_ideas (some proposal) constraints
        (review_data inputs)
        (review_context inputs ids selection
          (services.analyze_portfolio_proposal proposal selection.constraint_results)
          services.signal_conflicts)

  -- The proposal with the outcome of its review.
  unfoldable pub with_review : RiskEvaluationResult F → PortfolioProposal F → PortfolioProposal F
  with_review review proposal = record proposal {
    risk_checks = review.risk_checks;
    blocking_issues = review.issues;
    updated_at = now;
  }

  -- `constraints` is what `request.constraints or default_portfolio_constraints(...)` gives.
  unfoldable pub run_portfolio_workflow :
      F → List (PortfolioConstraint F) → Result (RunPortfolioWorkflowResponse F)
  run_portfolio_workflow target_nav_usd constraints = do
    selection ← build_portfolio_selection float inputs ids now constraints
    exposure ← build_exposure_summary selection.position_ideas
    proposal ←
        build_portfolio_proposal float ids target_nav_usd selection.position_ideas constraints
          exposure now
    services.validate_portfolio_proposal proposal
    ok (record {
      proposal = with_review (review_of constraints selection proposal) proposal;
      selection = selection;
    })
