-- ===== src/PaperExecution.antt =====
-- services/paper_execution/service.py: paper-trade candidates from an approved proposal.
pub mod Approval
pub mod Gate
use ai_native_hedge_fund_ch.Prelude.{
  ℕ, String, Bool, true, false, Option, none, some, List, [], ◌∷◌, ◌++◌, ◌||◌, not, any, map,
  filter, is_empty, Result, ok, ◌>>=◌, if◌then◌else◌,
}
use ai_native_hedge_fund_ch.Prelude.Int.{pos, abs_ℤ}
use ai_native_hedge_fund_ch.PyFloat.{Float}
use ai_native_hedge_fund_ch.Schemas.Enums.{
  QualityDecision, PortfolioProposalStatus, PaperTradeStatus, is_flat, refuse, quarantine,
}
use ai_native_hedge_fund_ch.Schemas.Portfolio.{
  PositionIdea, PortfolioProposal, PaperTrade, validate_paper_trade,
}

pub record PaperTradeProposalRequest (F : Type 0) : Type 0 where
  pub portfolio_proposal : PortfolioProposal F
  pub assumed_reference_prices : String → Option F
  pub requested_by : String

-- The stop that the notes of a response record.
pub data StopKind : Type 0 where
  review_bound blocked refused : StopKind

pub record PaperTradeProposalResponse (F : Type 0) : Type 0 where
  pub proposed_trades : List (PaperTrade F)
  pub review_required : Bool
  pub stop_kind : Option StopKind
  pub quality_decision : QualityDecision

-- The identifiers and the slippage of the realism bundle.
pub record RealismContext (F : Type 0) : Type 0 where
  pub execution_timing_rule_id : String
  pub fill_assumption_id : String
  pub cost_model_id : String
  pub slippage_bps : Option F

-- What the service calls: the data-quality gate (`none` before the trades exist), the realism
-- bundle of the reconciliation service, and the digest that names a trade.
pub record Services (F : Type 0) : Type 0 where
  pub validate_paper_trade_request :
      PortfolioProposal F → Option (List (PaperTrade F)) → QualityDecision
  pub build_paper_realism_context : PortfolioProposal F → List (PaperTrade F) → RealismContext F
  pub trade_id : String → String → String

abbrev pub is_approved_proposal : PortfolioProposalStatus → Bool
is_approved_proposal PortfolioProposalStatus.approved = true
is_approved_proposal _ = false

-- `decision in {QualityDecision.REFUSE, QualityDecision.QUARANTINE}`
abbrev pub is_refused : QualityDecision → Bool
is_refused refuse = true
is_refused quarantine = true
is_refused _ = false

-- `proposal.blocking_issues or any(check.blocking for check in proposal.risk_checks)`
unfoldable pub is_blocked : {F : Type 0} → PortfolioProposal F → Bool
is_blocked p = not (is_empty p.blocking_issues) || any (λ c. c.blocking) p.risk_checks

module _ {F : Type 0} (float : Float F) (services : Services F) where
  -- `notional_usd / reference_price`, for a price above zero.
  unfoldable pub quantity_of : F → Option F → Option F
  quantity_of notional_usd none = none
  quantity_of notional_usd (some price) =
      if float.gt price (float.of_int (pos 0)) then some (float.divide notional_usd price) else none

  unfoldable pub notional_of : PortfolioProposal F → PositionIdea → F
  notional_of p idea =
      float.divide (float.times p.target_nav_usd (float.of_int (abs_ℤ idea.proposed_weight_bps)))
        (float.of_int (pos 10000))

  -- The trade of one idea, before its validator runs.
  unfoldable pub trade_of : PaperTradeProposalRequest F → ℕ → PositionIdea → PaperTrade F
  unfolding quantity_of notional_of
  trade_of request now idea =
      let proposal = request.portfolio_proposal in
      let reference_price = request.assumed_reference_prices idea.symbol in
      record {
        paper_trade_id = services.trade_id proposal.portfolio_proposal_id idea.position_idea_id;
        portfolio_proposal_id = proposal.portfolio_proposal_id;
        position_idea_id = idea.position_idea_id;
        symbol = idea.symbol;
        side = idea.side;
        quantity = quantity_of (notional_of proposal idea) reference_price;
        notional_usd = notional_of proposal idea;
        assumed_reference_price_usd = reference_price;
        status = PaperTradeStatus.proposed;
        submitted_at = now;
        approved_at = none;
        simulated_fill_at = none;
        requested_by = request.requested_by;
        approved_by = none;
        review_decision_ids = [];
        slippage_bps_estimate = some (float.of_int (pos 5));
        execution_timing_rule_id = none;
        fill_assumption_id = none;
        cost_model_id = none;
        paper_position_state_id = none;
        latest_trade_outcome_id = none;
        updated_at = now;
      }

  -- The loop over the ideas: a flat one is skipped, any other becomes a validated trade.
  unfoldable pub build_trades :
      PaperTradeProposalRequest F → ℕ → List PositionIdea → Result (List (PaperTrade F))
  build_trades request now [] = ok []
  build_trades request now (idea ∷ ideas) =
      let rest = build_trades request now ideas in
      if is_flat idea.side then rest else do
        trade ← validate_paper_trade float (trade_of request now idea)
        trades ← rest
        ok (trade ∷ trades)

  abbrev slippage_or : Option F → Option F → Option F
  slippage_or none estimate = estimate
  slippage_or (some slippage_bps) estimate = some slippage_bps

  -- The copy of a trade that carries the realism bundle.
  unfoldable pub with_realism : RealismContext F → ℕ → PaperTrade F → PaperTrade F
  with_realism realism now t = record t {
    execution_timing_rule_id = some realism.execution_timing_rule_id;
    fill_assumption_id = some realism.fill_assumption_id;
    cost_model_id = some realism.cost_model_id;
    slippage_bps_estimate = slippage_or realism.slippage_bps t.slippage_bps_estimate;
    updated_at = now;
  }

  abbrev stopped : StopKind → QualityDecision → PaperTradeProposalResponse F
  stopped kind decision = record {
    proposed_trades = [];
    review_required = true;
    stop_kind = some kind;
    quality_decision = decision;
  }

  -- The trades with their realism bundle, unless the gate refuses them.
  unfoldable pub release :
      PaperTradeProposalRequest F → ℕ → List (PaperTrade F) → PaperTradeProposalResponse F
  release request now built =
      let proposal = request.portfolio_proposal in
      let realism = services.build_paper_realism_context proposal built in
      let trades = map (with_realism realism now) built in
      let decision = services.validate_paper_trade_request proposal (some trades) in
      if is_refused decision then stopped refused decision else record {
        proposed_trades = trades;
        review_required = true;
        stop_kind = none;
        quality_decision = decision;
      }

  -- `propose_trades`
  unfoldable pub propose_trades :
      PaperTradeProposalRequest F → ℕ → Result (PaperTradeProposalResponse F)
  propose_trades request now =
      let proposal = request.portfolio_proposal in
      let pre_decision = services.validate_paper_trade_request proposal none in
      if not (is_approved_proposal proposal.status)
      then ok (stopped review_bound pre_decision)
      else if is_blocked proposal
      then ok (stopped blocked pre_decision)
      else do
        built ← build_trades request now proposal.position_ideas
        ok (release request now built)
