-- ===== src/PortfolioWorkflow/Agreement.antt =====
-- The construction and the risk review agree on the limits of the proposal.
use ai_native_hedge_fund_ch.Prelude.{
  ℕ, ◌≡◌, ◌≢◌, refl, sym, ap, ◌∙◌, some, List, [], inl, inr, ◌↔◌, ◌&&◌, arith, All, All-find,
  and_true, Option-cases, ok, ok_injective, >>=-eq-ok,
}
use ai_native_hedge_fund_ch.Prelude.Int.{ℤ}
use ai_native_hedge_fund_ch.PyFloat.{Float}
use ai_native_hedge_fund_ch.Schemas.Enums.{
  ConstraintType, same_type, same_type_eq, gross_exposure, net_exposure, turnover,
}
use ai_native_hedge_fund_ch.Schemas.Portfolio.{
  PortfolioConstraint, PortfolioProposal, PositionIdea, PortfolioExposureSummary,
  validate_exposures, validate_proposal,
}
use ai_native_hedge_fund_ch.Portfolio.Inputs.{LoadedPortfolioInputs}
use ai_native_hedge_fund_ch.Portfolio.Exposure.{exposure_figures, build_exposure_summary}
use ai_native_hedge_fund_ch.Portfolio.Limits.{
  Exposures, constraint_by_type, projected_metric, final_exposures,
}
use ai_native_hedge_fund_ch.Portfolio.Limits.Within.{Within}
use ai_native_hedge_fund_ch.Portfolio.Decisions.{Identity}
use ai_native_hedge_fund_ch.Portfolio.Proposal.{build_portfolio_proposal}
use ai_native_hedge_fund_ch.Portfolio.Sizing.Accepted.{HasDistinctResults}
use ai_native_hedge_fund_ch.Portfolio.Selection.{build_portfolio_selection}
use ai_native_hedge_fund_ch.Portfolio.Selection.Safety.{proposal-Within_limits}
use ai_native_hedge_fund_ch.Risk.Review.Clear.{LimitHolds, IsSound, IsBounded, no_issues_iff}
use ai_native_hedge_fund_ch.PortfolioWorkflow.{
  WorkflowServices, RunPortfolioWorkflowResponse, review_data, review_of, with_review,
  run_portfolio_workflow,
}

module _ {F : Type 0} (float : Float F) where
  -- The limit that the review looks up is one that the construction respected.
  limit_of_Within :
      (e : Exposures) (t : ConstraintType) (n : ℤ) (constraints : List (PortfolioConstraint F))
      → projected_metric e t ≡ some n
      → All (Within float (projected_metric e)) constraints
      → LimitHolds float n (constraint_by_type constraints t)
  unfolding constraint_by_type
  limit_of_Within e t n constraints m h = elim (Option-cases (constraint_by_type constraints t)) [
    | inl absent ↦ rw absent tt
    | inr (c, found) ↦
        let (within, test) =
          All-find (Within float (projected_metric e))
            (λ c. c.active && same_type c.constraint_type t) c constraints h found in
        let (active, same) = and_true c.active (same_type c.constraint_type t) test in
        rw found (elim (Option-cases c.hard_limit) [
          | inl unlimited ↦ rw unlimited tt
          | inr (limit, l) ↦ rw l (
              within.at_most n limit active
                (ap (projected_metric e) (same_type_eq c.constraint_type t same) ∙ m) l)
        ])
  ]

  IsBounded-of_Within :
      (ideas : List PositionIdea) (constraints : List (PortfolioConstraint F))
      → All (Within float (projected_metric (final_exposures ideas))) constraints
      → IsBounded float constraints (exposure_figures ideas)
  unfolding exposure_figures projected_metric final_exposures
  IsBounded-of_Within ideas constraints h = record {
    gross = limit_of_Within (final_exposures ideas) gross_exposure _ constraints refl h;
    net = limit_of_Within (final_exposures ideas) net_exposure _ constraints refl h;
    turned = limit_of_Within (final_exposures ideas) turnover _ constraints refl h;
  }

  validate_exposures_same :
      (t : PortfolioExposureSummary) {s : PortfolioExposureSummary}
      → validate_exposures t ≡ ok s
      → s ≡ t
  unfolding validate_exposures
  validate_exposures_same t h = ground arith

  exposures_same :
      (ideas : List PositionIdea) {s : PortfolioExposureSummary}
      → build_exposure_summary ideas ≡ ok s
      → s ≡ exposure_figures ideas
  unfolding build_exposure_summary
  exposures_same ideas h = validate_exposures_same (exposure_figures ideas) h

  validate_proposal_same :
      (p : PortfolioProposal F) {valid : PortfolioProposal F}
      → validate_proposal float p ≡ ok valid
      → valid ≡ p
  unfolding validate_proposal
  validate_proposal_same p h = ground arith

module _ {F : Type 0} (float : Float F) (services : WorkflowServices F)
    (inputs : LoadedPortfolioInputs F) (ids : Identity) (now : ℕ)
    (constraints : List (PortfolioConstraint F)) where
  -- How a response of the workflow came to be.
  pub record IsReviewed (response : RunPortfolioWorkflowResponse F) : Type 0 where
    pub draft : PortfolioProposal F
    pub built : build_portfolio_selection float inputs ids now constraints ≡ ok response.selection
    pub figures : draft.exposure_summary ≡ exposure_figures response.selection.position_ideas
    pub reviewed :
        response.proposal
        ≡ with_review float services inputs ids now
            (review_of float services inputs ids now constraints response.selection draft)
            draft

  draft_figures :
      (nav : F) (ideas : List PositionIdea) (exposure : PortfolioExposureSummary)
      {draft : PortfolioProposal F}
      → build_portfolio_proposal float ids nav ideas constraints exposure now ≡ ok draft
      → draft.exposure_summary ≡ exposure
  unfolding build_portfolio_proposal
  draft_figures nav ideas exposure h =
      ap (λ p. p.exposure_summary) (validate_proposal_same float _ h)

  pub workflow-IsReviewed :
      (nav : F) {response : RunPortfolioWorkflowResponse F}
      → run_portfolio_workflow float services inputs ids now nav constraints ≡ ok response
      → IsReviewed response
  unfolding run_portfolio_workflow
  workflow-IsReviewed nav {response} h =
      let (selection, a, h1) =
        >>=-eq-ok (build_portfolio_selection float inputs ids now constraints) _ h in
      let (exposure, b, h2) = >>=-eq-ok (build_exposure_summary selection.position_ideas) _ h1 in
      let (draft, c, h3) =
        >>=-eq-ok
          (build_portfolio_proposal float ids nav selection.position_ideas constraints exposure now)
          _ h2 in
      let (checked, d, h4) = >>=-eq-ok (services.validate_portfolio_proposal draft) _ h3 in
      rw (sym (ok_injective h4)) (record {
        draft = draft;
        built = a;
        figures =
            draft_figures nav selection.position_ideas exposure c
            ∙ exposures_same float selection.position_ideas b;
        reviewed = refl;
      })

  -- The blocking issues of the reviewed proposal are those of the rules on its ideas and exposures.
  pub workflow_issues_iff :
      {response : RunPortfolioWorkflowResponse F}
      → IsReviewed response
      → (response.proposal.blocking_issues ≡ []) ↔ (
          All (IsSound float constraints (review_data inputs)) response.selection.position_ideas
          × IsBounded float constraints (exposure_figures response.selection.position_ideas))
  unfolding with_review review_of
  workflow_issues_iff {response} r =
      let rules =
        no_issues_iff float response.selection.position_ideas (some r.draft) constraints
          (review_data inputs) _ in
      let issues = ap (λ p. p.blocking_issues) r.reviewed in
      (
        λ h. let (sound, bounded) = rules.0 (sym issues ∙ h) in (sound, rw (← r.figures) bounded),
        λ h. issues ∙ rules.1 (h.0, rw r.figures h.1),
      )

  -- If the constraints have distinct identifiers and the workflow ends with a proposal that has an
  -- idea, then the review finds no fault with the gross, net and turnover limits: the proposal has
  -- a blocking issue exactly if one of its ideas is not sound.
  pub workflow_agreement :
      (nav : F) {response : RunPortfolioWorkflowResponse F}
      → HasDistinctResults ids constraints
      → run_portfolio_workflow float services inputs ids now nav constraints ≡ ok response
      → response.selection.position_ideas ≢ []
      → (response.proposal.blocking_issues ≡ [])
        ↔ All (IsSound float constraints (review_data inputs)) response.selection.position_ideas
  workflow_agreement nav {response} d h some_idea =
      let r = workflow-IsReviewed nav h in
      let rules = workflow_issues_iff r in
      elim (proposal-Within_limits float inputs ids now constraints d r.built) [
        | inl nothing ↦ absurd (some_idea nothing)
        | inr within ↦ (
          λ clear. (rules.0 clear).0,
          λ sound. rules.1 (
            sound,
            IsBounded-of_Within float response.selection.position_ideas constraints within,
          ),
        )
      ]
