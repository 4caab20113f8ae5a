-- ===== src/PaperExecution/Gate.antt =====
-- What must hold before paper trades come out, and what those trades are.
use ai_native_hedge_fund_ch.Prelude.{
  ℕ, String, ◌≡◌, refl, sym, ap, ◌∙◌, true, false, not, none, some, List, [], ◌∷◌, map, filter, any,
  is_empty, arith, All, Elem, Bool-cases, inl, inr, ok, ok_injective, >>=-eq-ok,
}
use ai_native_hedge_fund_ch.PyFloat.{Float}
use ai_native_hedge_fund_ch.Schemas.Enums.{
  PaperTradeStatus, PortfolioProposalStatus, is_flat, is_approve,
}
use ai_native_hedge_fund_ch.Schemas.Portfolio.{
  PositionIdea, PortfolioProposal, PaperTrade, validate_paper_trade,
}
use ai_native_hedge_fund_ch.Review.{
  ReviewDecision, apply_review_decision_to_portfolio_proposal, review_proposal,
}
use ai_native_hedge_fund_ch.Review.History.{review_step_adds_issue, review_proposal_keeps_issue}
use ai_native_hedge_fund_ch.PaperExecution.{
  RealismContext, PaperTradeProposalRequest, PaperTradeProposalResponse, Services,
  is_approved_proposal, is_refused, is_blocked, trade_of, build_trades, with_realism, release,
  propose_trades,
}

module _ {F : Type 0} (float : Float F) (services : Services F) where
  -- A trade that only asks for approval: proposed, for this proposal, not flat, not approved, not
  -- filled, and accepted by its validator.
  pub record IsOpenRequest (request : PaperTradeProposalRequest F) (now : ℕ) (t : PaperTrade F)
      : Type 0 where
    pub owner : t.portfolio_proposal_id ≡ request.portfolio_proposal.portfolio_proposal_id
    pub status : t.status ≡ PaperTradeStatus.proposed
    pub directional : is_flat t.side ≡ false
    pub unapproved : t.approved_at ≡ none
    pub unfilled : t.simulated_fill_at ≡ none
    pub valid : validate_paper_trade float t ≡ ok t

  -- The proposal that lets trades through.
  pub record IsReleased (p : PortfolioProposal F) : Type 0 where
    pub approved : p.status ≡ PortfolioProposalStatus.approved
    pub no_issues : p.blocking_issues ≡ []
    pub no_blocking_checks : any (λ c. c.blocking) p.risk_checks ≡ false

  validate_paper_trade_same :
      (t : PaperTrade F) {valid : PaperTrade F}
      → validate_paper_trade float t ≡ ok valid
      → valid ≡ t
  unfolding validate_paper_trade
  validate_paper_trade_same t h = ground arith

  module _ (request : PaperTradeProposalRequest F) (now : ℕ) where
    with_realism_open :
        (idea : PositionIdea)
        → is_flat idea.side ≡ false
        → validate_paper_trade float (trade_of float services request now idea)
          ≡ ok (trade_of float services request now idea)
        → (t : PaperTrade F) → t ≡ trade_of float services request now idea
        → IsOpenRequest request now t
    unfolding trade_of
    with_realism_open idea directional valid t e = record {
      owner = ap (λ u. u.portfolio_proposal_id) e;
      status = ap (λ u. u.status) e;
      directional = rw e directional;
      unapproved = ap (λ u. u.approved_at) e;
      unfilled = ap (λ u. u.simulated_fill_at) e;
      valid = rw e valid;
    }

    -- The ideas that become trades.
    abbrev pub directional_ids : List PositionIdea → List String
    directional_ids ideas =
        map (λ idea. idea.position_idea_id) (filter (λ idea. not (is_flat idea.side)) ideas)

    trade_of_idea :
        (idea : PositionIdea)
        → (trade_of float services request now idea).position_idea_id ≡ idea.position_idea_id
    unfolding trade_of
    trade_of_idea idea = refl

    pub build_trades_lem :
        (ideas : List PositionIdea) {trades : List (PaperTrade F)}
        → build_trades float services request now ideas ≡ ok trades
        → All (IsOpenRequest request now) trades
          × (map (λ t. t.position_idea_id) trades ≡ directional_ids ideas)
    unfolding build_trades
    build_trades_lem [] h = rw (sym (ok_injective h)) (tt, refl)
    build_trades_lem (idea ∷ ideas) {trades} h = elim (Bool-cases (is_flat idea.side)) [
      | inl e ↦ rw e (build_trades_lem ideas (rw e at h))
      | inr e ↦
          let (trade, valid, more) =
            >>=-eq-ok (validate_paper_trade float (trade_of float services request now idea)) _
              (rw e at h) in
          let (rest, built, done) =
            >>=-eq-ok (build_trades float services request now ideas) _ more in
          let same = validate_paper_trade_same (trade_of float services request now idea) valid in
          let (each, ids) = build_trades_lem ideas built in
          let all_of : trade ∷ rest ≡ trades = ok_injective done in
          rw (sym all_of) (
            (with_realism_open idea e (valid ∙ ap ok same) trade same, each),
            rw e (cc (ids, trade_of_idea idea, ap (λ (t : PaperTrade F). t.position_idea_id) same)),
          )
    ]

    realism_valid :
        (x : RealismContext F) (t : PaperTrade F)
        → validate_paper_trade float t ≡ ok t
        → validate_paper_trade float (with_realism float services x now t)
          ≡ ok (with_realism float services x now t)
    unfolding with_realism validate_paper_trade
    realism_valid x t h = ground arith

    pub realism_keeps :
        (x : RealismContext F) (trades : List (PaperTrade F))
        → All (IsOpenRequest request now) trades
        → All (IsOpenRequest request now) (map (with_realism float services x now) trades)
          × (map (λ t. t.position_idea_id) (map (with_realism float services x now) trades)
              ≡ map (λ t. t.position_idea_id) trades)
    unfolding with_realism
    realism_keeps x [] h = (tt, refl)
    realism_keeps x (t ∷ trades) h =
        let (each, ids) = realism_keeps x trades h.1 in
        (
          (
            record {
              owner = h.0.owner;
              status = h.0.status;
              directional = h.0.directional;
              unapproved = h.0.unapproved;
              unfilled = h.0.unfilled;
              valid = realism_valid x t h.0.valid;
            },
            each,
          ),
          ap (λ l. t.position_idea_id ∷ l) ids,
        )

    -- What a response may hold: no trade, or the whole translation of a released proposal.
    pub data IsGated (response : PaperTradeProposalResponse F) : Type 0 where
      held : response.proposed_trades ≡ [] → IsGated response
      issued :
          IsReleased request.portfolio_proposal
          → is_refused response.quality_decision ≡ false
          → All (IsOpenRequest request now) response.proposed_trades
          → map (λ t. t.position_idea_id) response.proposed_trades
            ≡ directional_ids request.portfolio_proposal.position_ideas
          → IsGated response

    release-IsGated :
        (built : List (PaperTrade F))
        → IsReleased request.portfolio_proposal
        → All (IsOpenRequest request now) built
        → map (λ t. t.position_idea_id) built
          ≡ directional_ids request.portfolio_proposal.position_ideas
        → IsGated (release float services request now built)
    unfolding release
    release-IsGated built r each ids =
        let p = request.portfolio_proposal in
        let x = services.build_paper_realism_context p built in
        let trades = map (with_realism float services x now) built in
        elim (Bool-cases (is_refused (services.validate_paper_trade_request p (some trades)))) [
          | inl e ↦ rw e (held refl)
          | inr e ↦ let kept = realism_keeps x built each in rw e (issued r e kept.0 (kept.1 ∙ ids))
        ]

    released :
        (p : PortfolioProposal F)
        → not (is_approved_proposal p.status) ≡ false
        → is_blocked p ≡ false
        → IsReleased p
    unfolding is_blocked
    released p a b = record {
      approved = ground arith;
      no_issues = ground arith;
      no_blocking_checks = ground arith;
    }

    -- Every response of the service either holds no trade, or comes from an approved proposal
    -- without blocking issue and without blocking check that the data-quality gate did not refuse;
    -- then it holds exactly one trade for each directional idea, in the order of the ideas, and
    -- each is a valid trade that is only proposed: for this proposal, not approved and not filled.
    pub propose_trades-IsGated :
        {response : PaperTradeProposalResponse F}
        → propose_trades float services request now ≡ ok response
        → IsGated response
    unfolding propose_trades
    propose_trades-IsGated {response} h =
        let p = request.portfolio_proposal in
        elim (Bool-cases (not (is_approved_proposal p.status))) [
          | inl e ↦ held (sym (ap (λ r. r.proposed_trades) (ok_injective (rw e at h))))
          | inr e ↦ elim (Bool-cases (is_blocked p)) [
            | inl b ↦ held (sym (ap (λ r. r.proposed_trades) (ok_injective (rw b at (rw e at h)))))
            | inr b ↦
                let (built, run, done) =
                  >>=-eq-ok (build_trades float services request now p.position_ideas) _
                    (rw b at (rw e at h)) in
                let (each, ids) = build_trades_lem p.position_ideas run in
                rw (sym (ok_injective done)) (release-IsGated built (released p e b) each ids)
          ]
        ]

  blocked_of_issue :
      (p : PortfolioProposal F) (issue : String)
      → Elem issue p.blocking_issues
      → is_blocked p ≡ true
  unfolding is_blocked
  blocked_of_issue p issue h = elim (Bool-cases (is_empty p.blocking_issues)) [
    | inl e ↦ absurd (no_element p.blocking_issues e h)
    | inr e ↦ rw e refl
  ]
    where
      no_element : (xs : List String) → is_empty xs ≡ true → Elem issue xs → ⊥
      no_element [] e h = elim h [ ]
      no_element (x ∷ xs) e h = cc

  -- An issue that a reviewer raises against a proposal, with any outcome but an approval, stops
  -- every later request for paper trades: whatever decisions follow, approvals included, the
  -- service answers with no trade.
  pub raised_issue_stops_trades :
      (request : PaperTradeProposalRequest F) (now : ℕ) (p : PortfolioProposal F)
      → (d : ReviewDecision) (later : List ReviewDecision) (issue : String)
      → is_approve d.outcome ≡ false
      → Elem issue d.blocking_issues
      → request.portfolio_proposal ≡ review_proposal p (d ∷ later)
      → (response : PaperTradeProposalResponse F) × (propose_trades float services request now
          ≡ ok response)
        × (response.proposed_trades ≡ [])
  unfolding propose_trades review_proposal
  raised_issue_stops_trades request now p d later issue other h e =
      let raised = apply_review_decision_to_portfolio_proposal p d in
      let stays =
        review_proposal_keeps_issue raised later issue (review_step_adds_issue p d issue other h) in
      let stop = blocked_of_issue (review_proposal raised later) issue stays in
      elim (Bool-cases (not (is_approved_proposal request.portfolio_proposal.status))) [
        | inl a ↦ rw a (_, refl, refl)
        | inr a ↦ rw a (rw (ap is_blocked e ∙ stop) (_, refl, refl))
      ]
