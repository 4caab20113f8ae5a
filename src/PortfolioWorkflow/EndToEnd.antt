-- ===== src/PortfolioWorkflow/EndToEnd.antt =====
-- From signals to paper trades: what a trade says about the proposal that it comes from.
use ai_native_hedge_fund_ch.Prelude.{ℕ, ◌≡◌, ◌≢◌, sym, ap, ◌∙◌, List, [], All, ok}
use ai_native_hedge_fund_ch.PyFloat.{Float}
use ai_native_hedge_fund_ch.Schemas.Portfolio.{PortfolioConstraint}
use ai_native_hedge_fund_ch.Portfolio.Inputs.{LoadedPortfolioInputs}
use ai_native_hedge_fund_ch.Portfolio.Exposure.{exposure_figures}
use ai_native_hedge_fund_ch.Portfolio.Decisions.{Identity}
use ai_native_hedge_fund_ch.Risk.Review.Clear.{IsSound, IsBounded}
use ai_native_hedge_fund_ch.Review.{ReviewDecision, review_proposal}
use ai_native_hedge_fund_ch.Review.History.{no_issues_before}
use ai_native_hedge_fund_ch.PaperExecution.{
  PaperTradeProposalRequest, PaperTradeProposalResponse, Services, propose_trades,
}
use ai_native_hedge_fund_ch.PaperExecution.Gate.{propose_trades-IsGated, held, issued}
use ai_native_hedge_fund_ch.PortfolioWorkflow.{
  WorkflowServices, RunPortfolioWorkflowResponse, review_data, run_portfolio_workflow,
}
use ai_native_hedge_fund_ch.PortfolioWorkflow.Agreement.{workflow-IsReviewed, workflow_issues_iff}

module _ {F : Type 0} (float : Float F) (workflow : WorkflowServices F)
    (inputs : LoadedPortfolioInputs F) (ids : Identity) (now : ℕ)
    (constraints : List (PortfolioConstraint F)) (services : Services F) where
  -- If the workflow produced a proposal, reviewers decided on it, and the paper-trade service
  -- answered a request for the result with at least one trade, then every idea of the proposal is
  -- sound and its exposures exceed no hard limit: neither the reviewers nor a later step can let a
  -- proposal through that the risk review blocks.
  pub trades_are_cleared :
      (nav : F) {response : RunPortfolioWorkflowResponse F} (decisions : List ReviewDecision)
      → (request : PaperTradeProposalRequest F) (later : ℕ) {answer : PaperTradeProposalResponse F}
      → run_portfolio_workflow float workflow inputs ids now nav constraints ≡ ok response
      → request.portfolio_proposal ≡ review_proposal response.proposal decisions
      → propose_trades float services request later ≡ ok answer
      → answer.proposed_trades ≢ []
      → All (IsSound float constraints (review_data inputs)) response.selection.position_ideas
        × IsBounded float constraints (exposure_figures response.selection.position_ideas)
  trades_are_cleared nav {response} decisions request later run same asked traded =
      elim (propose_trades-IsGated float services request later asked) [
        | held nothing ↦ absurd (traded nothing)
        | issued released gate each ids_ ↦
            (workflow_issues_iff float workflow inputs ids now constraints
                (workflow-IsReviewed float workflow inputs ids now constraints nav run)).0
              (no_issues_before response.proposal decisions
                (sym (ap (λ p. p.blocking_issues) same) ∙ released.no_issues))
      ]
