-- ===== src/Tests/Reviewing.antt =====
-- The properties of reviews and paper trades, at concrete inputs.
use ai_native_hedge_fund_ch.Prelude.{◌≡◌, refl, inl, none, some, [], ◌∷◌, ok, All, Elem, arith}
use ai_native_hedge_fund_ch.Prelude.Int.{pos}
use ai_native_hedge_fund_ch.PyFloat.{Milli, milli}
use ai_native_hedge_fund_ch.Schemas.Enums.{PositionSide, PaperTradeStatus}
use ai_native_hedge_fund_ch.Schemas.Portfolio.{PaperTrade, PortfolioProposal, validate_paper_trade}
use ai_native_hedge_fund_ch.Review.{review_proposal, review_trade}
use ai_native_hedge_fund_ch.Review.History.{
  IsApprovedBy, IsHarmless, review_proposal_keeps_issue, review_trade_valid,
}
use ai_native_hedge_fund_ch.PaperExecution.{
  PaperTradeProposalRequest, PaperTradeProposalResponse, propose_trades,
}
use ai_native_hedge_fund_ch.PaperExecution.Approval.{trades_need_approval}
use ai_native_hedge_fund_ch.PaperExecution.Gate.{
  IsGated, propose_trades-IsGated, raised_issue_stops_trades,
}
use ai_native_hedge_fund_ch.Tests.Scenario.{
  response, request, answer, services, approval, rejection,
}
use ai_native_hedge_fund_ch.Tests.Runs.{proposed, same_request, one_trade}

propose_trades-IsGated_example : IsGated milli services request 30 answer
propose_trades-IsGated_example = propose_trades-IsGated milli services request 30 proposed

-- A request for a proposal that was rejected with an issue, and approved later.
stale_request : PaperTradeProposalRequest Milli
stale_request = record {
  portfolio_proposal = review_proposal response.proposal (rejection ∷ approval ∷ []);
  assumed_reference_prices = λ symbol. none;
  requested_by = "desk";
}

raised_issue_stops_trades_example :
    (held : PaperTradeProposalResponse Milli) × (propose_trades milli services stale_request 30
      ≡ ok held)
    × (held.proposed_trades ≡ [])
raised_issue_stops_trades_example =
    raised_issue_stops_trades milli services stale_request 30 response.proposal rejection
      (approval ∷ []) "stale evidence" refl (inl refl) (unfold stale_request in refl)

trades_need_approval_example :
    IsApprovedBy response.proposal (approval ∷ [])
    × All IsHarmless (approval ∷ [])
    × (response.proposal.blocking_issues ≡ [])
trades_need_approval_example =
    trades_need_approval milli services request 30 response.proposal (approval ∷ []) same_request
      proposed one_trade

blocked_proposal : PortfolioProposal Milli
blocked_proposal = record response.proposal { blocking_issues = "gross exposure" ∷ [] }

review_proposal_keeps_issue_example :
    Elem "gross exposure"
      (review_proposal blocked_proposal (rejection ∷ approval ∷ [])).blocking_issues
review_proposal_keeps_issue_example =
    review_proposal_keeps_issue blocked_proposal (rejection ∷ approval ∷ []) "gross exposure"
      (unfold blocked_proposal in inl refl)

abbrev pub trade : PaperTrade Milli
trade = record {
  paper_trade_id = "trade";
  portfolio_proposal_id = "proposal";
  position_idea_id = "idea";
  symbol = "ACME";
  side = PositionSide.long;
  quantity = some (pos 2000);
  notional_usd = pos 100000;
  assumed_reference_price_usd = some (pos 50000);
  status = PaperTradeStatus.proposed;
  submitted_at = 24;
  approved_at = none;
  simulated_fill_at = none;
  requested_by = "desk";
  approved_by = none;
  review_decision_ids = [];
  slippage_bps_estimate = none;
  execution_timing_rule_id = none;
  fill_assumption_id = none;
  cost_model_id = none;
  paper_position_state_id = none;
  latest_trade_outcome_id = none;
  updated_at = 24;
}

trade_valid : validate_paper_trade milli trade ≡ ok trade
unfolding validate_paper_trade milli
trade_valid = refl

review_trade_valid_example :
    validate_paper_trade milli (review_trade trade (rejection ∷ approval ∷ []))
    ≡ ok (review_trade trade (rejection ∷ approval ∷ []))
review_trade_valid_example =
    review_trade_valid milli trade (rejection ∷ approval ∷ []) trade_valid
      (omega arith, (omega arith, tt))
