-- ===== src/Tests/Scenario.antt =====
-- One approved signal with evidence, the default limits, and the proposal that comes of them.
use Prim.Native.String.{◌++◌ as append}
use ai_native_hedge_fund_ch.Prelude.{
  String, true, none, some, List, [], ◌∷◌, str_eq, Result, ok, err, if◌then◌else◌,
}
use ai_native_hedge_fund_ch.Prelude.Int.{pos}
use ai_native_hedge_fund_ch.PyFloat.{Milli, milli}
use ai_native_hedge_fund_ch.Schemas.Enums.{
  SignalStatus, ResearchStance, DerivedArtifactValidationStatus, EvidenceGrade, QualityDecision,
  PositionSide, PositionIdeaStatus, ReviewOutcome, PortfolioProposalStatus,
}
use ai_native_hedge_fund_ch.Schemas.Portfolio.{PositionIdea, PortfolioConstraint}
use ai_native_hedge_fund_ch.Portfolio.Inputs.{SupportingEvidenceLink, Signal, LoadedPortfolioInputs}
use ai_native_hedge_fund_ch.Portfolio.Decisions.{Identity}
use ai_native_hedge_fund_ch.Portfolio.Proposal.{default_portfolio_constraints}
use ai_native_hedge_fund_ch.Portfolio.Selection.{
  PortfolioSelectionBuildResult, build_portfolio_selection,
}
use ai_native_hedge_fund_ch.Review.{ReviewDecision, review_proposal}
use ai_native_hedge_fund_ch.PaperExecution.{
  Services, PaperTradeProposalRequest, PaperTradeProposalResponse, propose_trades,
}
use ai_native_hedge_fund_ch.PortfolioWorkflow.{
  WorkflowServices, RunPortfolioWorkflowResponse, run_portfolio_workflow,
}

abbrev pub value_or : {A : Type 0} → A → Result A → A
value_or default (ok a) = a
value_or default (err message) = default

abbrev first : List String → String
first [] = ""
first (x ∷ xs) = x

abbrev last : String → List String → String
last default [] = default
last default (x ∷ xs) = last x xs

-- A stand-in for the digest: a constraint is named by its type, anything else by its last argument.
abbrev pub make_id : String → List String → String
make_id kind parts = if str_eq kind "constraint" then first parts else last "" parts

abbrev pub ids : Identity
ids = record {
  make_id = make_id;
  summary_id = "summary";
  proposal_id = "proposal";
  constraint_set_id = "set";
  as_of_text = "2026-01-05";
}

abbrev pub link : SupportingEvidenceLink
link = record { supporting_evidence_link_id = "link"; evidence_span_id = "span" }

abbrev pub signal : String → Milli → Signal Milli
signal signal_id score = record {
  signal_id = signal_id;
  hypothesis_id = "hypothesis";
  status = SignalStatus.approved;
  stance = ResearchStance.positive;
  validation_status = DerivedArtifactValidationStatus.validated;
  primary_score = score;
  effective_at = 10;
  research_artifact_ids = "brief" ∷ "grade" ∷ [];
  signal_family = "text";
  uncertainty = some (pos 200);
  feature_ids = "feature" ∷ [];
  uncertainties = [];
  lineage_feature_ids = "feature" ∷ [];
  lineage_supporting_evidence_link_ids = signal_id ∷ [];
  lineage_input_families = "text" ∷ [];
}

abbrev pub inputs : LoadedPortfolioInputs Milli
inputs = record {
  company_id = "co";
  company_ticker = some "ACME";
  signals = signal "weaker" (pos 300) ∷ signal "stronger" (pos 800) ∷ [];
  signal_bundle_id = none;
  arbitration_decision = none;
  research_briefs_by_id = λ id.
      if str_eq id "brief"
      then some (record { research_brief_id = "brief"; supporting_evidence_links = link ∷ [] })
      else none;
  evidence_assessments_by_id = λ id.
      if str_eq id "grade"
      then some (record { evidence_assessment_id = "grade"; grade = EvidenceGrade.strong })
      else none;
  hypotheses_by_id = λ id. none;
}

unfoldable pub constraints : List (PortfolioConstraint Milli)
unfolding default_portfolio_constraints
constraints = default_portfolio_constraints milli make_id

abbrev no_selection : PortfolioSelectionBuildResult Milli
no_selection = record {
  constraint_results = [];
  position_sizing_rationales = [];
  construction_decisions = [];
  selection_conflicts = [];
  summary = record {
    construction_decision_ids = [];
    candidate_signal_ids = [];
    included_signal_ids = [];
    included_position_idea_ids = [];
    rejected_signal_ids = [];
    binding_constraint_ids = [];
  };
  position_ideas = [];
}

unfoldable pub selection : PortfolioSelectionBuildResult Milli
selection = value_or no_selection (build_portfolio_selection milli inputs ids 20 constraints)

abbrev pub workflow_services : WorkflowServices Milli
workflow_services = record {
  validate_portfolio_proposal = λ proposal. ok tt;
  analyze_portfolio_proposal = λ proposal results. record {
    portfolio_attribution_id = "attribution";
    stress_test_run_id = "stress";
    stress_test_results = [];
  };
  signal_conflicts = [];
}

abbrev pub nav : Milli
nav = pos 1000000000

abbrev pub no_response : RunPortfolioWorkflowResponse Milli
no_response = record {
  proposal = record {
    portfolio_proposal_id = "";
    target_nav_usd = nav;
    position_ideas = [];
    constraints = [];
    risk_checks = [];
    exposure_summary = record {
      gross_exposure_bps = pos 0;
      net_exposure_bps = pos 0;
      long_exposure_bps = pos 0;
      short_exposure_bps = pos 0;
      cash_buffer_bps = pos 0;
      position_count = 0;
      turnover_bps_assumption = pos 0;
    };
    blocking_issues = [];
    review_decision_ids = [];
    portfolio_selection_summary_id = none;
    status = PortfolioProposalStatus.draft;
    updated_at = 0;
  };
  selection = no_selection;
}

unfoldable pub response : RunPortfolioWorkflowResponse Milli
response =
    value_or no_response
      (run_portfolio_workflow milli workflow_services inputs ids 20 nav constraints)

abbrev pub approval : ReviewDecision
approval = record {
  review_decision_id = "decision";
  target_id = "proposal";
  reviewer_id = "reviewer";
  outcome = ReviewOutcome.approve;
  decided_at = 25;
  rationale = "checked";
  blocking_issues = [];
}

abbrev pub rejection : ReviewDecision
rejection = record approval {
  review_decision_id = "earlier";
  outcome = ReviewOutcome.reject;
  blocking_issues = "stale evidence" ∷ [];
}

abbrev pub services : Services Milli
services = record {
  validate_paper_trade_request = λ proposal trades. QualityDecision.pass;
  build_paper_realism_context = λ proposal trades. record {
    execution_timing_rule_id = "rule";
    fill_assumption_id = "fill";
    cost_model_id = "cost";
    slippage_bps = none;
  };
  trade_id = λ proposal_id idea_id. append proposal_id idea_id;
}

unfoldable pub request : PaperTradeProposalRequest Milli
request = record {
  portfolio_proposal = review_proposal response.proposal (approval ∷ []);
  assumed_reference_prices = λ symbol. some (pos 50000);
  requested_by = "desk";
}

unfoldable pub answer : PaperTradeProposalResponse Milli
answer =
    value_or
      (record {
        proposed_trades = [];
        review_required = true;
        stop_kind = none;
        quality_decision = QualityDecision.pass;
      })
      (propose_trades milli services request 30)

abbrev pub no_idea : PositionIdea
no_idea = record {
  position_idea_id = "";
  signal_id = "";
  symbol = "";
  side = PositionSide.flat;
  selection_reason = "";
  proposed_weight_bps = pos 0;
  max_weight_bps = pos 1;
  evidence_span_ids = [];
  supporting_evidence_link_ids = [];
  research_artifact_ids = [];
  review_decision_ids = [];
  construction_decision_id = none;
  position_sizing_rationale_id = none;
  status = PositionIdeaStatus.draft;
  updated_at = 0;
}
