-- ===== src/Tests/Runs.antt =====
-- The concrete runs that the witnesses use, by evaluation.
use ai_native_hedge_fund_ch.Prelude.{
  ◌≡◌, refl, ◌≢◌, false, inl, Elem, List, [], ◌∷◌, ok, dict_values, sorted_set, insert_by, sort_by,
}
use ai_native_hedge_fund_ch.Prelude.Int.{◌+ℤ◌, ◌-ℤ◌, ◌*ℤ◌}
use ai_native_hedge_fund_ch.PaperExecution.{
  is_blocked, quantity_of, notional_of, trade_of, build_trades, with_realism, release,
  propose_trades,
}
use ai_native_hedge_fund_ch.Portfolio.Decisions.{
  decision_id_of, result_id_of, build_rejected_construction_decision,
}
use ai_native_hedge_fund_ch.Portfolio.Exposure.{weight_on, exposure_figures, build_exposure_summary}
use ai_native_hedge_fund_ch.Portfolio.Inputs.{
  first_resolved, find_research_brief, find_evidence_assessment, supporting_links_from_hypothesis,
  target_horizon,
}
use ai_native_hedge_fund_ch.Portfolio.Intake.{
  is_open_status, is_non_directional, side_of_stance, evidence_links_of, candidate_context, screen,
  intake_rejections, intake_candidates,
}
use ai_native_hedge_fund_ch.Portfolio.Limits.{
  constraint_by_type, projected_metric, final_metric, max_weight, whole_limit, capped_weight,
  single_name_constraint_result, projected_status, final_status, constraint_row, constraint_results,
  projected_exposures, final_exposures, project_portfolio_constraint_results,
  final_portfolio_constraint_results,
}
use ai_native_hedge_fund_ch.Portfolio.Proposal.{
  default_portfolio_constraints, build_portfolio_proposal,
}
use ai_native_hedge_fund_ch.Portfolio.Ranking.{
  candidate_priority, maturity_bucket, base_weight_bps, same_rank, ranks_below, rank, top_tied,
  is_opposing_tie,
}
use ai_native_hedge_fund_ch.Portfolio.Selection.{
  after_round, select_first, reject_all, losing_decisions, record_outcome, compete, assemble,
  ranked_candidates, build_portfolio_selection,
}
use ai_native_hedge_fund_ch.Portfolio.Sizing.{
  validate_rationale, stance_value, selection_reason, single_name_step, candidate_results,
  position_idea_id_of, position_idea_of, rationale_of, included_decision, breach_decision, accept,
  attempt,
}
use ai_native_hedge_fund_ch.PortfolioWorkflow.{
  signal_map, review_data, review_context, review_of, with_review, run_portfolio_workflow,
}
use ai_native_hedge_fund_ch.PyFloat.{milli}
use ai_native_hedge_fund_ch.Review.{
  validate_decision, position_idea_status_from_review_outcome,
  portfolio_proposal_status_from_review_outcome, paper_trade_status_from_review_outcome,
  apply_review_decision_to_position_idea, apply_review_decision_to_portfolio_proposal,
  apply_review_decision_to_paper_trade, review_proposal, review_trade,
}
use ai_native_hedge_fund_ch.Risk.Checks.{build_risk_check, blocking_issues}
use ai_native_hedge_fund_ch.Risk.Ideas.{
  is_incomplete, evidence_of_idea, completeness_checks, signal_checks, grade_checks,
  evidence_checks, single_name_checks, idea_checks, all_idea_checks,
}
use ai_native_hedge_fund_ch.Risk.Proposal.{
  is_context_missing, concerns, construction_context_checks, arbitration_checks, analysis_checks,
  limit_checks, gross_checks, net_checks, turnover_checks, exposure_checks,
  is_concentration_fragile, concentration_checks, stress_checks,
}
use ai_native_hedge_fund_ch.Risk.Review.{proposal_checks, all_checks, evaluate_portfolio_risk}
use ai_native_hedge_fund_ch.Schemas.Enums.{is_flat, same_type, same_stance}
use ai_native_hedge_fund_ch.Schemas.Portfolio.{
  PositionIdea, validate_position_idea, validate_exposures, validate_check, validate_proposal,
  validate_paper_trade,
}
use ai_native_hedge_fund_ch.Portfolio.Sizing.Accepted.{HasDistinctResults}
use ai_native_hedge_fund_ch.Tests.Scenario.{
  ids, inputs, constraints, selection, nav, workflow_services, response, services, request, answer,
  no_idea, approval,
}

-- The identifiers of the default constraints are distinct.
pub distinct : HasDistinctResults ids constraints
unfolding constraints result_id_of
distinct = record {
  distinct = λ subject. ((refl, (refl, (refl, tt))), ((refl, (refl, tt)), ((refl, tt), (tt, tt))));
}

-- The construction finishes with one idea.
pub built : build_portfolio_selection milli inputs ids 20 constraints ≡ ok selection
unfolding selection constraints ◌+ℤ◌ ◌-ℤ◌ ◌*ℤ◌ dict_values sorted_set decision_id_of result_id_of
    build_rejected_construction_decision weight_on exposure_figures build_exposure_summary
    first_resolved find_research_brief find_evidence_assessment supporting_links_from_hypothesis
    target_horizon is_open_status is_non_directional side_of_stance evidence_links_of
    candidate_context screen intake_rejections intake_candidates constraint_by_type projected_metric
    final_metric max_weight whole_limit capped_weight single_name_constraint_result projected_status
    final_status constraint_row constraint_results projected_exposures final_exposures
    project_portfolio_constraint_results final_portfolio_constraint_results
    default_portfolio_constraints build_portfolio_proposal candidate_priority maturity_bucket
    base_weight_bps same_rank ranks_below insert_by sort_by rank top_tied is_opposing_tie
    after_round select_first reject_all losing_decisions record_outcome compete assemble
    ranked_candidates build_portfolio_selection validate_rationale stance_value selection_reason
    single_name_step candidate_results position_idea_id_of position_idea_of rationale_of
    included_decision breach_decision accept attempt milli same_type same_stance
    validate_position_idea validate_exposures validate_check validate_proposal validate_paper_trade
built = refl

pub workflow_run :
    run_portfolio_workflow milli workflow_services inputs ids 20 nav constraints ≡ ok response
unfolding response constraints ◌+ℤ◌ ◌-ℤ◌ ◌*ℤ◌ dict_values sorted_set is_blocked quantity_of
    notional_of trade_of build_trades with_realism release propose_trades decision_id_of
    result_id_of build_rejected_construction_decision weight_on exposure_figures
    build_exposure_summary first_resolved find_research_brief find_evidence_assessment
    supporting_links_from_hypothesis target_horizon is_open_status is_non_directional side_of_stance
    evidence_links_of candidate_context screen intake_rejections intake_candidates
    constraint_by_type projected_metric final_metric max_weight whole_limit capped_weight
    single_name_constraint_result projected_status final_status constraint_row constraint_results
    projected_exposures final_exposures project_portfolio_constraint_results
    final_portfolio_constraint_results default_portfolio_constraints build_portfolio_proposal
    candidate_priority maturity_bucket base_weight_bps same_rank ranks_below insert_by sort_by rank
    top_tied is_opposing_tie after_round select_first reject_all losing_decisions record_outcome
    compete assemble ranked_candidates build_portfolio_selection validate_rationale stance_value
    selection_reason single_name_step candidate_results position_idea_id_of position_idea_of
    rationale_of included_decision breach_decision accept attempt signal_map review_data
    review_context review_of with_review run_portfolio_workflow milli validate_decision
    position_idea_status_from_review_outcome portfolio_proposal_status_from_review_outcome
    paper_trade_status_from_review_outcome apply_review_decision_to_position_idea
    apply_review_decision_to_portfolio_proposal apply_review_decision_to_paper_trade review_proposal
    review_trade build_risk_check blocking_issues is_incomplete evidence_of_idea completeness_checks
    signal_checks grade_checks evidence_checks single_name_checks idea_checks all_idea_checks
    is_context_missing concerns construction_context_checks arbitration_checks analysis_checks
    limit_checks gross_checks net_checks turnover_checks exposure_checks is_concentration_fragile
    concentration_checks stress_checks proposal_checks all_checks evaluate_portfolio_risk same_type
    same_stance validate_position_idea validate_exposures validate_check validate_proposal
    validate_paper_trade
workflow_run = refl

pub proposed : propose_trades milli services request 30 ≡ ok answer
unfolding answer request response constraints ◌+ℤ◌ ◌-ℤ◌ ◌*ℤ◌ dict_values sorted_set is_blocked
    quantity_of notional_of trade_of build_trades with_realism release propose_trades decision_id_of
    result_id_of build_rejected_construction_decision weight_on exposure_figures
    build_exposure_summary first_resolved find_research_brief find_evidence_assessment
    supporting_links_from_hypothesis target_horizon is_open_status is_non_directional side_of_stance
    evidence_links_of candidate_context screen intake_rejections intake_candidates
    constraint_by_type projected_metric final_metric max_weight whole_limit capped_weight
    single_name_constraint_result projected_status final_status constraint_row constraint_results
    projected_exposures final_exposures project_portfolio_constraint_results
    final_portfolio_constraint_results default_portfolio_constraints build_portfolio_proposal
    candidate_priority maturity_bucket base_weight_bps same_rank ranks_below insert_by sort_by rank
    top_tied is_opposing_tie after_round select_first reject_all losing_decisions record_outcome
    compete assemble ranked_candidates build_portfolio_selection validate_rationale stance_value
    selection_reason single_name_step candidate_results position_idea_id_of position_idea_of
    rationale_of included_decision breach_decision accept attempt signal_map review_data
    review_context review_of with_review run_portfolio_workflow milli validate_decision
    position_idea_status_from_review_outcome portfolio_proposal_status_from_review_outcome
    paper_trade_status_from_review_outcome apply_review_decision_to_position_idea
    apply_review_decision_to_portfolio_proposal apply_review_decision_to_paper_trade review_proposal
    review_trade build_risk_check blocking_issues is_incomplete evidence_of_idea completeness_checks
    signal_checks grade_checks evidence_checks single_name_checks idea_checks all_idea_checks
    is_context_missing concerns construction_context_checks arbitration_checks analysis_checks
    limit_checks gross_checks net_checks turnover_checks exposure_checks is_concentration_fragile
    concentration_checks stress_checks proposal_checks all_checks evaluate_portfolio_risk same_type
    same_stance validate_position_idea validate_exposures validate_check validate_proposal
    validate_paper_trade
proposed = refl

pub one_idea : response.selection.position_ideas ≢ []
unfolding response constraints ◌+ℤ◌ ◌-ℤ◌ ◌*ℤ◌ dict_values sorted_set is_blocked quantity_of
    notional_of trade_of build_trades with_realism release propose_trades decision_id_of
    result_id_of build_rejected_construction_decision weight_on exposure_figures
    build_exposure_summary first_resolved find_research_brief find_evidence_assessment
    supporting_links_from_hypothesis target_horizon is_open_status is_non_directional side_of_stance
    evidence_links_of candidate_context screen intake_rejections intake_candidates
    constraint_by_type projected_metric final_metric max_weight whole_limit capped_weight
    single_name_constraint_result projected_status final_status constraint_row constraint_results
    projected_exposures final_exposures project_portfolio_constraint_results
    final_portfolio_constraint_results default_portfolio_constraints build_portfolio_proposal
    candidate_priority maturity_bucket base_weight_bps same_rank ranks_below insert_by sort_by rank
    top_tied is_opposing_tie after_round select_first reject_all losing_decisions record_outcome
    compete assemble ranked_candidates build_portfolio_selection validate_rationale stance_value
    selection_reason single_name_step candidate_results position_idea_id_of position_idea_of
    rationale_of included_decision breach_decision accept attempt signal_map review_data
    review_context review_of with_review run_portfolio_workflow milli validate_decision
    position_idea_status_from_review_outcome portfolio_proposal_status_from_review_outcome
    paper_trade_status_from_review_outcome apply_review_decision_to_position_idea
    apply_review_decision_to_portfolio_proposal apply_review_decision_to_paper_trade review_proposal
    review_trade build_risk_check blocking_issues is_incomplete evidence_of_idea completeness_checks
    signal_checks grade_checks evidence_checks single_name_checks idea_checks all_idea_checks
    is_context_missing concerns construction_context_checks arbitration_checks analysis_checks
    limit_checks gross_checks net_checks turnover_checks exposure_checks is_concentration_fragile
    concentration_checks stress_checks proposal_checks all_checks evaluate_portfolio_risk same_type
    same_stance validate_position_idea validate_exposures validate_check validate_proposal
    validate_paper_trade
one_idea = λ e. cc

pub one_trade : answer.proposed_trades ≢ []
unfolding answer request response constraints ◌+ℤ◌ ◌-ℤ◌ ◌*ℤ◌ dict_values sorted_set is_blocked
    quantity_of notional_of trade_of build_trades with_realism release propose_trades decision_id_of
    result_id_of build_rejected_construction_decision weight_on exposure_figures
    build_exposure_summary first_resolved find_research_brief find_evidence_assessment
    supporting_links_from_hypothesis target_horizon is_open_status is_non_directional side_of_stance
    evidence_links_of candidate_context screen intake_rejections intake_candidates
    constraint_by_type projected_metric final_metric max_weight whole_limit capped_weight
    single_name_constraint_result projected_status final_status constraint_row constraint_results
    projected_exposures final_exposures project_portfolio_constraint_results
    final_portfolio_constraint_results default_portfolio_constraints build_portfolio_proposal
    candidate_priority maturity_bucket base_weight_bps same_rank ranks_below insert_by sort_by rank
    top_tied is_opposing_tie after_round select_first reject_all losing_decisions record_outcome
    compete assemble ranked_candidates build_portfolio_selection validate_rationale stance_value
    selection_reason single_name_step candidate_results position_idea_id_of position_idea_of
    rationale_of included_decision breach_decision accept attempt signal_map review_data
    review_context review_of with_review run_portfolio_workflow milli validate_decision
    position_idea_status_from_review_outcome portfolio_proposal_status_from_review_outcome
    paper_trade_status_from_review_outcome apply_review_decision_to_position_idea
    apply_review_decision_to_portfolio_proposal apply_review_decision_to_paper_trade review_proposal
    review_trade build_risk_check blocking_issues is_incomplete evidence_of_idea completeness_checks
    signal_checks grade_checks evidence_checks single_name_checks idea_checks all_idea_checks
    is_context_missing concerns construction_context_checks arbitration_checks analysis_checks
    limit_checks gross_checks net_checks turnover_checks exposure_checks is_concentration_fragile
    concentration_checks stress_checks proposal_checks all_checks evaluate_portfolio_risk same_type
    same_stance validate_position_idea validate_exposures validate_check validate_proposal
    validate_paper_trade
one_trade = λ e. cc

-- The idea of the selection.
unfoldable pub chosen : PositionIdea
chosen = first_idea selection.position_ideas
  where
    first_idea : List PositionIdea → PositionIdea
    first_idea [] = no_idea
    first_idea (idea ∷ ideas) = idea

pub chosen_member : Elem chosen selection.position_ideas
unfolding chosen selection constraints ◌+ℤ◌ ◌-ℤ◌ ◌*ℤ◌ dict_values sorted_set decision_id_of
    result_id_of build_rejected_construction_decision weight_on exposure_figures
    build_exposure_summary first_resolved find_research_brief find_evidence_assessment
    supporting_links_from_hypothesis target_horizon is_open_status is_non_directional side_of_stance
    evidence_links_of candidate_context screen intake_rejections intake_candidates
    constraint_by_type projected_metric final_metric max_weight whole_limit capped_weight
    single_name_constraint_result projected_status final_status constraint_row constraint_results
    projected_exposures final_exposures project_portfolio_constraint_results
    final_portfolio_constraint_results default_portfolio_constraints build_portfolio_proposal
    candidate_priority maturity_bucket base_weight_bps same_rank ranks_below insert_by sort_by rank
    top_tied is_opposing_tie after_round select_first reject_all losing_decisions record_outcome
    compete assemble ranked_candidates build_portfolio_selection validate_rationale stance_value
    selection_reason single_name_step candidate_results position_idea_id_of position_idea_of
    rationale_of included_decision breach_decision accept attempt milli same_type same_stance
    validate_position_idea validate_exposures validate_check validate_proposal validate_paper_trade
chosen_member = inl refl

pub chosen_directional : is_flat chosen.side ≡ false
unfolding chosen selection constraints ◌+ℤ◌ ◌-ℤ◌ ◌*ℤ◌ dict_values sorted_set decision_id_of
    result_id_of build_rejected_construction_decision weight_on exposure_figures
    build_exposure_summary first_resolved find_research_brief find_evidence_assessment
    supporting_links_from_hypothesis target_horizon is_open_status is_non_directional side_of_stance
    evidence_links_of candidate_context screen intake_rejections intake_candidates
    constraint_by_type projected_metric final_metric max_weight whole_limit capped_weight
    single_name_constraint_result projected_status final_status constraint_row constraint_results
    projected_exposures final_exposures project_portfolio_constraint_results
    final_portfolio_constraint_results default_portfolio_constraints build_portfolio_proposal
    candidate_priority maturity_bucket base_weight_bps same_rank ranks_below insert_by sort_by rank
    top_tied is_opposing_tie after_round select_first reject_all losing_decisions record_outcome
    compete assemble ranked_candidates build_portfolio_selection validate_rationale stance_value
    selection_reason single_name_step candidate_results position_idea_id_of position_idea_of
    rationale_of included_decision breach_decision accept attempt milli same_type same_stance
    validate_position_idea validate_exposures validate_check validate_proposal validate_paper_trade
chosen_directional = refl

pub same_request : request.portfolio_proposal ≡ review_proposal response.proposal (approval ∷ [])
unfolding request
same_request = refl
