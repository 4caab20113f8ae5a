-- ===== src/Review/History.antt =====
-- What a history of review decisions leaves on a proposal and on a paper trade.
use ai_native_hedge_fund_ch.Prelude.{
  ◌≤◌, String, ◌≡◌, refl, ◌⊎◌, true, false, List, [], ◌∷◌, ◌++◌, arith, All, Elem, Elem-append_left,
  Elem-append_right, Elem-sorted_set, Bool-cases, inl, inr, ok,
}
use ai_native_hedge_fund_ch.PyFloat.{Float}
use ai_native_hedge_fund_ch.Schemas.Enums.{
  ReviewOutcome, PortfolioProposalStatus, is_approve, approve, reject, needs_revision, escalate,
}
use ai_native_hedge_fund_ch.Schemas.Portfolio.{PortfolioProposal, PaperTrade, validate_paper_trade}
use ai_native_hedge_fund_ch.Review.{
  ReviewDecision, apply_review_decision_to_portfolio_proposal, apply_review_decision_to_paper_trade,
  portfolio_proposal_status_from_review_outcome, paper_trade_status_from_review_outcome,
  review_proposal, review_trade,
}

module _ {F : Type 0} where
  step_keeps_issue :
      (p : PortfolioProposal F) (d : ReviewDecision) (issue : String)
      → Elem issue p.blocking_issues
      → Elem issue (apply_review_decision_to_portfolio_proposal p d).blocking_issues
  unfolding apply_review_decision_to_portfolio_proposal
  step_keeps_issue p d issue h = elim (Bool-cases (is_approve d.outcome)) [
    | inl e ↦ rw e h
    | inr e ↦ rw e (
        Elem-sorted_set issue (p.blocking_issues ++ d.blocking_issues)
          (Elem-append_left issue p.blocking_issues d.blocking_issues h))
  ]

  -- No history of decisions, approvals included, removes a blocking issue of a proposal.
  pub review_proposal_keeps_issue :
      (p : PortfolioProposal F) (decisions : List ReviewDecision) (issue : String)
      → Elem issue p.blocking_issues
      → Elem issue (review_proposal p decisions).blocking_issues
  unfolding review_proposal
  review_proposal_keeps_issue p [] issue h = h
  review_proposal_keeps_issue p (d ∷ decisions) issue h =
      review_proposal_keeps_issue (apply_review_decision_to_portfolio_proposal p d) decisions issue
        (step_keeps_issue p d issue h)

  -- A decision other than an approval records its own issues.
  pub review_step_adds_issue :
      (p : PortfolioProposal F) (d : ReviewDecision) (issue : String)
      → is_approve d.outcome ≡ false
      → Elem issue d.blocking_issues
      → Elem issue (apply_review_decision_to_portfolio_proposal p d).blocking_issues
  unfolding apply_review_decision_to_portfolio_proposal
  review_step_adds_issue p d issue e h = rw e (
      Elem-sorted_set issue (p.blocking_issues ++ d.blocking_issues)
        (Elem-append_right issue p.blocking_issues d.blocking_issues h))

  trade_step_valid :
      (float : Float F) (t : PaperTrade F) (d : ReviewDecision)
      → validate_paper_trade float t ≡ ok t
      → t.submitted_at ≤ d.decided_at
      → validate_paper_trade float (apply_review_decision_to_paper_trade t d)
        ≡ ok (apply_review_decision_to_paper_trade t d)
  unfolding validate_paper_trade apply_review_decision_to_paper_trade
      paper_trade_status_from_review_outcome
  trade_step_valid float t d h le = ground arith

  -- A review copies the trade without running its validator. If the trade was valid and every
  -- decision is made at or after its submission, then the reviewed trade is valid as well: an
  -- approved one has its time and its approver.
  pub review_trade_valid :
      (float : Float F) (t : PaperTrade F) (decisions : List ReviewDecision)
      → validate_paper_trade float t ≡ ok t
      → All (λ d. t.submitted_at ≤ d.decided_at) decisions
      → validate_paper_trade float (review_trade t decisions) ≡ ok (review_trade t decisions)
  unfolding review_trade apply_review_decision_to_paper_trade
  review_trade_valid float t [] h times = h
  review_trade_valid float t (d ∷ decisions) h times =
      review_trade_valid float (apply_review_decision_to_paper_trade t d) decisions
        (trade_step_valid float t d h times.0) times.1

-- A reviewed proposal without issues had none before.
pub no_issues_before :
    {F : Type 0} (p : PortfolioProposal F) (decisions : List ReviewDecision)
    → (review_proposal p decisions).blocking_issues ≡ []
    → p.blocking_issues ≡ []
no_issues_before p decisions h = kept p.blocking_issues (review_proposal_keeps_issue p decisions)
  where
    kept :
        (issues : List String)
        → ((issue : String)
            → Elem issue issues
            → Elem issue (review_proposal p decisions).blocking_issues)
        → issues ≡ []
    kept [] keeps = refl
    kept (issue ∷ issues) keeps = absurd (rw h at (keeps issue (inl refl)))

nil_of_no_element : (xs : List String) → ((x : String) → ¬ Elem x xs) → xs ≡ []
nil_of_no_element [] none_in = refl
nil_of_no_element (x ∷ xs) none_in = absurd (none_in x (inl refl))

approve_of_status :
    (outcome : ReviewOutcome)
    → portfolio_proposal_status_from_review_outcome outcome ≡ PortfolioProposalStatus.approved
    → outcome ≡ approve
unfolding portfolio_proposal_status_from_review_outcome
approve_of_status approve h = refl
approve_of_status needs_revision h = cc
approve_of_status reject h = cc
approve_of_status escalate h = cc

-- A proposal that was approved without any decision, or by the last one of its history.
pub data IsApprovedBy {F : Type 0} : PortfolioProposal F → List ReviewDecision → Type 0 where
  from_the_start :
      {p : PortfolioProposal F} → p.status ≡ PortfolioProposalStatus.approved → IsApprovedBy p []
  by_last :
      {p : PortfolioProposal F}
      → (earlier : List ReviewDecision) (last : ReviewDecision) → last.outcome ≡ approve
      → IsApprovedBy p (earlier ++ last ∷ [])

-- A decision that approves, or that raises no issue.
abbrev pub IsHarmless : ReviewDecision → Type 0
IsHarmless d = (d.outcome ≡ approve) ⊎ (d.blocking_issues ≡ [])

module _ {F : Type 0} where
  one_more :
      {p : PortfolioProposal F} {d : ReviewDecision} {decisions : List ReviewDecision}
      → IsApprovedBy (apply_review_decision_to_portfolio_proposal p d) decisions
      → IsApprovedBy p (d ∷ decisions)
  unfolding apply_review_decision_to_portfolio_proposal
  one_more {d} (from_the_start h) = by_last [] d (approve_of_status d.outcome h)
  one_more {d} (by_last earlier last h) = by_last (d ∷ earlier) last h

  pub approved-IsApprovedBy :
      (p : PortfolioProposal F) (decisions : List ReviewDecision)
      → (review_proposal p decisions).status ≡ PortfolioProposalStatus.approved
      → IsApprovedBy p decisions
  unfolding review_proposal
  approved-IsApprovedBy p [] h = from_the_start h
  approved-IsApprovedBy p (d ∷ decisions) h =
      one_more (approved-IsApprovedBy (apply_review_decision_to_portfolio_proposal p d) decisions h)

  step-IsHarmless :
      (p : PortfolioProposal F) (d : ReviewDecision)
      → (apply_review_decision_to_portfolio_proposal p d).blocking_issues ≡ []
      → IsHarmless d
  step-IsHarmless p d clear = elim (Bool-cases (is_approve d.outcome)) [
    | inl e ↦ inl (approve_of_test d.outcome e)
    | inr e ↦ inr (
        nil_of_no_element d.blocking_issues
          (λ issue h. rw clear at (review_step_adds_issue p d issue e h)))
  ]
    where
      approve_of_test : (outcome : ReviewOutcome) → is_approve outcome ≡ true → outcome ≡ approve
      approve_of_test approve h = refl
      approve_of_test needs_revision h = cc
      approve_of_test reject h = cc
      approve_of_test escalate h = cc

  pub clear-AllHarmless :
      (p : PortfolioProposal F) (decisions : List ReviewDecision)
      → (review_proposal p decisions).blocking_issues ≡ []
      → All IsHarmless decisions
  unfolding review_proposal
  clear-AllHarmless p [] h = tt
  clear-AllHarmless p (d ∷ decisions) h =
      let next = apply_review_decision_to_portfolio_proposal p d in
      (step-IsHarmless p d (no_issues_before next decisions h), clear-AllHarmless next decisions h)
