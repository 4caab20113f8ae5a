-- ===== src/PaperExecution/Approval.antt =====
-- Whose decision the paper trades of a reviewed proposal rest on.
use ai_native_hedge_fund_ch.Prelude.{ℕ, ◌≡◌, ◌≢◌, sym, ap, ◌∙◌, List, [], All, ok}
use ai_native_hedge_fund_ch.PyFloat.{Float}
use ai_native_hedge_fund_ch.Schemas.Portfolio.{PortfolioProposal}
use ai_native_hedge_fund_ch.Review.{ReviewDecision, review_proposal}
use ai_native_hedge_fund_ch.Review.History.{
  IsApprovedBy, IsHarmless, approved-IsApprovedBy, clear-AllHarmless, no_issues_before,
}
use ai_native_hedge_fund_ch.PaperExecution.{
  PaperTradeProposalRequest, PaperTradeProposalResponse, Services, propose_trades,
}
use ai_native_hedge_fund_ch.PaperExecution.Gate.{propose_trades-IsGated, held, issued}

module _ {F : Type 0} (float : Float F) (services : Services F) where
  -- If the service answers a request for a reviewed proposal with at least one trade, then the last
  -- decision of the review is an approval, or there was none and the proposal came approved; every
  -- decision that does not approve raised no issue; and the proposal had no issue before the review.
  pub trades_need_approval :
      (request : PaperTradeProposalRequest F) (now : ℕ) {answer : PaperTradeProposalResponse F}
      → (p : PortfolioProposal F) (decisions : List ReviewDecision)
      → request.portfolio_proposal ≡ review_proposal p decisions
      → propose_trades float services request now ≡ ok answer
      → answer.proposed_trades ≢ []
      → IsApprovedBy p decisions × All IsHarmless decisions × (p.blocking_issues ≡ [])
  trades_need_approval request now p decisions same asked traded =
      elim (propose_trades-IsGated float services request now asked) [
        | held nothing ↦ absurd (traded nothing)
        | issued released gate each ids ↦
            let clear = sym (ap (λ q. q.blocking_issues) same) ∙ released.no_issues in
            (
              approved-IsApprovedBy p decisions (sym (ap (λ q. q.status) same) ∙ released.approved),
              clear-AllHarmless p decisions clear,
              no_issues_before p decisions clear,
            )
      ]
