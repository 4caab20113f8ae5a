-- ===== src/DataQuality/PaperTrades/OwnTrades.antt =====
-- The paper-trade service with this gate: what it builds itself, it returns.
use ai_native_hedge_fund_ch.Prelude.{
  ℕ, String, ◌≡◌, refl, sym, ap, ◌∙◌, inl, inr, true, false, not, Option, none, some, List, [], ◌∷◌,
  map, filter, any, All, Elem, Bool-cases, All-elem, str_eq, eq_iff, is_empty, ok, ok_injective,
  arith,
}
use ai_native_hedge_fund_ch.PyFloat.{Float}
use ai_native_hedge_fund_ch.Schemas.Enums.{pass, is_flat}
use ai_native_hedge_fund_ch.Schemas.Portfolio.{PositionIdea, PortfolioProposal, PaperTrade}
use ai_native_hedge_fund_ch.PaperExecution.{
  PaperTradeProposalRequest, PaperTradeProposalResponse, Services, is_approved_proposal, is_blocked,
  build_trades, with_realism, release, propose_trades,
}
use ai_native_hedge_fund_ch.PaperExecution.Gate.{IsOpenRequest, build_trades_lem, realism_keeps}
use ai_native_hedge_fund_ch.DataQuality.{ValidationGateResult, provenance_failures}
use ai_native_hedge_fund_ch.DataQuality.PaperTrades.{
  GateContext, is_known_position, given, validate_paper_trade_request,
}
use ai_native_hedge_fund_ch.DataQuality.PaperTrades.Verdict.{
  IsSound, IsDecided, admitted, unfit, unsound, validate_paper_trade_request-IsDecided,
}

module _ {F : Type 0} (float : Float F) (services : Services F) (context : GateContext F) where
  -- The gate that the service calls is this one.
  abbrev pub UsesGate : Type 0
  UsesGate =
      (p : PortfolioProposal F) (trades : Option (List (PaperTrade F)))
      → (r : ValidationGateResult) × (validate_paper_trade_request context p trades false ≡ ok r)
        × (services.validate_paper_trade_request p trades ≡ r.validation_gate.decision)

  -- Every trade carries complete provenance, as `build_provenance` writes it.
  abbrev pub IsTraced : Type 0
  IsTraced = (t : PaperTrade F) → is_empty (provenance_failures true (context.provenance t)) ≡ true

  str_eq_refl : (s : String) → str_eq s s ≡ true
  str_eq_refl s = (eq_iff s s).1 refl

  -- The id of a directional idea is that of an idea.
  known_id :
      (x : String) (ideas : List PositionIdea)
      → Elem x
          (map (λ idea. idea.position_idea_id) (filter (λ idea. not (is_flat idea.side)) ideas))
      → any (λ idea. str_eq idea.position_idea_id x) ideas ≡ true
  known_id x [] e = absurd e
  known_id x (idea ∷ ideas) e =
      let rest = known_id x ideas in
      elim (Bool-cases (is_flat idea.side)) [
        | inl f ↦ later idea ideas (rest (rw f at e))
        | inr f ↦
            let here : Elem x (idea.position_idea_id ∷ _) = rw f at e in
            elim here [
              | inl same ↦ rw same (rw (str_eq_refl idea.position_idea_id) refl)
              | inr more ↦ later idea ideas (rest more)
            ]
      ]
    where
      later :
          (i : PositionIdea) (is : List PositionIdea)
          → any (λ idea. str_eq idea.position_idea_id x) is ≡ true
          → any (λ idea. str_eq idea.position_idea_id x) (i ∷ is) ≡ true
      later i is h = ground arith

  gate_passes :
      (p : PortfolioProposal F) (trades : Option (List (PaperTrade F))) (r : ValidationGateResult)
      → is_approved_proposal p.status ≡ true
      → is_blocked p ≡ false
      → All (IsSound context p) (given context trades)
      → IsDecided context p trades r.validation_gate
      → r.validation_gate.decision ≡ pass
  gate_passes p trades r a b each (admitted x y z decision w) = decision
  gate_passes p trades r a b each (unfit (inl n) decision w) = absurd (cc (a, n))
  gate_passes p trades r a b each (unfit (inr y) decision w) = absurd (cc (b, y))
  gate_passes p trades r a b each (unsound x y t e bad z w) =
      absurd (bad (All-elem (IsSound context p) t (given context trades) each e))

  module _ (request : PaperTradeProposalRequest F) (now : ℕ) (is_traced : IsTraced) where
    built_trades_sound :
        (trades : List (PaperTrade F))
        → All (IsOpenRequest float services request now) trades
        → ((x : String)
            → Elem x (map (λ t. t.position_idea_id) trades)
            → any (λ idea. str_eq idea.position_idea_id x) request.portfolio_proposal.position_ideas
              ≡ true)
        → All (IsSound context request.portfolio_proposal) trades
    unfolding is_known_position
    built_trades_sound [] h known = tt
    built_trades_sound (t ∷ trades) h known = (
      record {
        owned = rw h.0.owner (str_eq_refl request.portfolio_proposal.portfolio_proposal_id);
        known = known t.position_idea_id (inl refl);
        traced = is_traced t;
      },
      built_trades_sound trades h.1 (λ x e. known x (inr e)),
    )

    -- An approved proposal without blocking issue and without blocking check gets all the trades
    -- that the service builds for it: behind this gate, which a trade of complete provenance
    -- passes, they are never refused, so the answer is the built trades with the realism bundle,
    -- no stop, and a pass.
    pub own_trades_returned :
        {built : List (PaperTrade F)}
        → UsesGate
        → is_approved_proposal request.portfolio_proposal.status ≡ true
        → is_blocked request.portfolio_proposal ≡ false
        → build_trades float services request now request.portfolio_proposal.position_ideas
          ≡ ok built
        → (response : PaperTradeProposalResponse F) × (propose_trades float services request now
            ≡ ok response)
          × (response.proposed_trades
              ≡ map
                  (with_realism float services
                    (services.build_paper_realism_context request.portfolio_proposal built)
                    now)
                  built)
          × (response.stop_kind ≡ none)
          × (response.quality_decision ≡ pass)
    unfolding propose_trades release
    own_trades_returned {built} uses a b run =
        let p = request.portfolio_proposal in
        let realism = services.build_paper_realism_context p built in
        let trades = map (with_realism float services realism now) built in
        let (opened, ids) = build_trades_lem float services request now p.position_ideas run in
        let (kept, same_ids) = realism_keeps float services request now realism built opened in
        let sound =
          built_trades_sound trades kept
            (λ x e. known_id x p.position_ideas (rw (same_ids ∙ ids) at e)) in
        let (r, answered, law) = uses p (some trades) in
        let (s, answered2, decided) =
          validate_paper_trade_request-IsDecided context p (some trades) in
        let passes = gate_passes p (some trades) s a b sound decided in
        let same = ap (λ g. g.validation_gate.decision) (ok_injective (sym answered ∙ answered2)) in
        rw (a, b, run, law ∙ same ∙ passes) (_, refl, refl, refl, refl)
