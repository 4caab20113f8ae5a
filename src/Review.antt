-- ===== src/Review.antt =====
-- libraries/utils/review_transitions.py: what a review decision does to an idea, a proposal, a trade.
pub mod History
use mathlib.Core.List.{foldl}
use ai_native_hedge_fund_ch.Prelude.{
  ℕ, String, Bool, true, false, Option, none, some, List, [], ◌∷◌, ◌++◌, not, ◌&&◌, is_empty,
  truthy, sorted_set, Result, ok, raise_if, ◌>>◌, if◌then◌else◌,
}
use ai_native_hedge_fund_ch.Schemas.Enums.{
  ReviewOutcome, PositionIdeaStatus, PortfolioProposalStatus, PaperTradeStatus, is_approve, approve,
  reject, needs_revision, escalate,
}
use ai_native_hedge_fund_ch.Schemas.Portfolio.{PositionIdea, PortfolioProposal, PaperTrade}

pub record ReviewDecision : Type 0 where
  pub review_decision_id : String
  pub target_id : String
  pub reviewer_id : String
  pub outcome : ReviewOutcome
  pub decided_at : ℕ
  pub rationale : String
  pub blocking_issues : List String

-- `ReviewDecision.validate_decision`
unfoldable pub validate_decision : ReviewDecision → Result ReviewDecision
validate_decision d = do
  raise_if (is_approve d.outcome && not (is_empty d.blocking_issues))
      "Approval decisions must not carry blocking_issues."
  raise_if (not (truthy d.target_id)) "target_id must be non-empty."
  raise_if (not (truthy d.reviewer_id)) "reviewer_id must be non-empty."
  raise_if (not (truthy d.rationale)) "rationale must be non-empty."
  ok d

unfoldable pub position_idea_status_from_review_outcome : ReviewOutcome → PositionIdeaStatus
position_idea_status_from_review_outcome approve = PositionIdeaStatus.approved_for_portfolio
position_idea_status_from_review_outcome needs_revision = PositionIdeaStatus.draft
position_idea_status_from_review_outcome reject = PositionIdeaStatus.rejected
position_idea_status_from_review_outcome escalate = PositionIdeaStatus.pending_review

unfoldable pub portfolio_proposal_status_from_review_outcome :
    ReviewOutcome → PortfolioProposalStatus
portfolio_proposal_status_from_review_outcome approve = PortfolioProposalStatus.approved
portfolio_proposal_status_from_review_outcome needs_revision = PortfolioProposalStatus.draft
portfolio_proposal_status_from_review_outcome reject = PortfolioProposalStatus.rejected
portfolio_proposal_status_from_review_outcome escalate = PortfolioProposalStatus.pending_review

unfoldable pub paper_trade_status_from_review_outcome : ReviewOutcome → PaperTradeStatus
paper_trade_status_from_review_outcome approve = PaperTradeStatus.approved
paper_trade_status_from_review_outcome needs_revision = PaperTradeStatus.proposed
paper_trade_status_from_review_outcome reject = PaperTradeStatus.rejected
paper_trade_status_from_review_outcome escalate = PaperTradeStatus.proposed

unfoldable pub apply_review_decision_to_position_idea : PositionIdea → ReviewDecision → PositionIdea
unfolding position_idea_status_from_review_outcome
apply_review_decision_to_position_idea idea d = record idea {
  status = position_idea_status_from_review_outcome d.outcome;
  review_decision_ids = idea.review_decision_ids ++ d.review_decision_id ∷ [];
  updated_at = d.decided_at;
}

module _ {F : Type 0} where
  -- An approval keeps the issues as they are; any other outcome adds its own.
  unfoldable pub apply_review_decision_to_portfolio_proposal :
      PortfolioProposal F → ReviewDecision → PortfolioProposal F
  apply_review_decision_to_portfolio_proposal p d = record p {
    status = portfolio_proposal_status_from_review_outcome d.outcome;
    review_decision_ids = p.review_decision_ids ++ d.review_decision_id ∷ [];
    blocking_issues =
        if is_approve d.outcome
        then p.blocking_issues
        else sorted_set (p.blocking_issues ++ d.blocking_issues);
    updated_at = d.decided_at;
  }

  unfoldable pub apply_review_decision_to_paper_trade : PaperTrade F → ReviewDecision → PaperTrade F
  apply_review_decision_to_paper_trade t d = record t {
    status = paper_trade_status_from_review_outcome d.outcome;
    approved_at = if is_approve d.outcome then some d.decided_at else t.approved_at;
    approved_by = if is_approve d.outcome then some d.reviewer_id else t.approved_by;
    review_decision_ids = t.review_decision_ids ++ d.review_decision_id ∷ [];
    updated_at = d.decided_at;
  }

  -- Histories, which the code keeps only as repeated calls: the decisions of one proposal, and of
  -- one trade, in the order in which they are applied.
  unfoldable pub review_proposal : PortfolioProposal F → List ReviewDecision → PortfolioProposal F
  review_proposal p decisions = foldl apply_review_decision_to_portfolio_proposal p decisions

  unfoldable pub review_trade : PaperTrade F → List ReviewDecision → PaperTrade F
  review_trade t decisions = foldl apply_review_decision_to_paper_trade t decisions
