-- ===== src/Risk/Proposal.antt =====
-- The rules on the proposal as a whole, in `evaluate_portfolio_risk`.
use ai_native_hedge_fund_ch.Prelude.{
  String, Bool, true, false, Option, none, some, List, [], ◌∷◌, ◌++◌, ◌||◌, ◌&&◌, not, any,
  is_empty, is_some, length, ltb, str_eq, if◌then◌else◌,
}
use ai_native_hedge_fund_ch.Prelude.Int.{ℤ, pos, ltb_ℤ, abs_ℤ, max_ℤ}
use ai_native_hedge_fund_ch.PyFloat.{Float}
use ai_native_hedge_fund_ch.Schemas.Enums.{
  RiskCheckStatus, Severity, warn, fail, medium, high, is_pass, gross_exposure, net_exposure,
  turnover,
}
use ai_native_hedge_fund_ch.Schemas.Portfolio.{
  PortfolioConstraint, PortfolioProposal, PositionIdea, RiskCheck,
}
use ai_native_hedge_fund_ch.Portfolio.Limits.{ConstraintResult, constraint_by_type, max_weight}
use ai_native_hedge_fund_ch.Risk.Checks.{build_risk_check, unmeasured, against_limit}

-- What the review is told about how the proposal came to be; identifiers stand for the artifacts.
pub record ReviewContext (F : Type 0) : Type 0 where
  pub constraint_set : Option String
  pub constraint_results : List (ConstraintResult F)
  pub construction_decisions : List String
  pub portfolio_selection_summary : Option String
  pub signal_bundle : Option String
  pub arbitration_decision : Option String
  pub signal_conflicts : List String
  pub portfolio_attribution : Option String
  pub stress_test_run : Option String
  pub stress_test_results : List RiskCheckStatus

module _ {F : Type 0} where
  unfoldable pub is_context_missing : ReviewContext F → Bool
  is_context_missing x =
      not (is_some x.constraint_set)
      || (not (is_some x.portfolio_selection_summary)
          || (is_empty x.construction_decisions || is_empty x.constraint_results))

  -- `result.subject_id in {proposal_id, *[idea.signal_id for idea in position_ideas]}`
  unfoldable pub concerns : PortfolioProposal F → List PositionIdea → ConstraintResult F → Bool
  concerns p ideas r =
      str_eq r.subject_id p.portfolio_proposal_id
      || any (λ idea. str_eq r.subject_id idea.signal_id) ideas

  unfoldable pub construction_context_checks :
      List PositionIdea → ReviewContext F → Option (PortfolioProposal F) → List (RiskCheck F)
  unfolding is_context_missing concerns
  construction_context_checks ideas x none = []
  construction_context_checks ideas x (some p) =
      if is_context_missing x
      then build_risk_check "portfolio_proposal" p.portfolio_proposal_id
          "portfolio_construction_context_missing" warn medium false
          "Portfolio construction context is incomplete." unmeasured
        ∷ []
      else if any (λ r. r.binding && concerns p ideas r) x.constraint_results
      then build_risk_check "portfolio_proposal" p.portfolio_proposal_id
          "portfolio_construction_binding_constraints" warn medium false
          "Portfolio construction hit one or more binding constraints." unmeasured
        ∷ []
      else []

  abbrev pub proposal_id_or_pending : Option (PortfolioProposal F) → String
  proposal_id_or_pending none = "portfolio_proposal_pending"
  proposal_id_or_pending (some p) = p.portfolio_proposal_id

  unfoldable pub arbitration_checks :
      ReviewContext F → Option (PortfolioProposal F) → List (RiskCheck F)
  arbitration_checks x proposal =
      if not (is_some x.signal_bundle) || not (is_some x.arbitration_decision)
      then build_risk_check "portfolio_proposal" (proposal_id_or_pending proposal)
          "signal_arbitration_missing" warn medium false "Signal arbitration context is missing."
          unmeasured
        ∷ []
      else if not (is_empty x.signal_conflicts)
      then build_risk_check "portfolio_proposal" (proposal_id_or_pending proposal)
          "signal_arbitration_conflicts_present" warn medium false
          "Signal arbitration observed conflicts that should remain visible in review." unmeasured
        ∷ []
      else []

  unfoldable pub analysis_checks :
      ReviewContext F → Option (PortfolioProposal F) → List (RiskCheck F)
  analysis_checks x none = []
  analysis_checks x (some p) =
      if not (is_some x.portfolio_attribution)
        || (not (is_some x.stress_test_run) || is_empty x.stress_test_results)
      then build_risk_check "portfolio_proposal" p.portfolio_proposal_id
          "portfolio_analysis_missing" warn medium false
          "Portfolio attribution or structured stress-test artifacts are missing." unmeasured
        ∷ []
      else []

module _ {F : Type 0} (float : Float F) where
  -- One of the three hard limits: the first active constraint of the type, and what is measured.
  unfoldable pub limit_checks :
      String
      → RiskCheckStatus
      → Severity
      → Bool
      → String
      → String
      → ℤ
      → Option (PortfolioConstraint F)
      → List (RiskCheck F)
  limit_checks rule_name status severity blocking message proposal_id observed none = []
  limit_checks rule_name status severity blocking message proposal_id observed (some constraint) =
      elim constraint.hard_limit [
        | none ↦ []
        | some limit ↦
            if float.gt (float.of_int observed) limit
            then build_risk_check "portfolio_proposal" proposal_id rule_name status severity
                blocking message (against_limit constraint (float.of_int observed) limit)
              ∷ []
            else []
      ]

  unfoldable pub gross_checks :
      List (PortfolioConstraint F) → PortfolioProposal F → List (RiskCheck F)
  gross_checks constraints p =
      limit_checks "gross_exposure_limit" fail high true
        "Portfolio proposal exceeds the gross exposure limit." p.portfolio_proposal_id
        p.exposure_summary.gross_exposure_bps (constraint_by_type constraints gross_exposure)

  unfoldable pub net_checks :
      List (PortfolioConstraint F) → PortfolioProposal F → List (RiskCheck F)
  net_checks constraints p =
      limit_checks "net_exposure_limit" fail high true
        "Portfolio proposal exceeds the absolute net exposure limit." p.portfolio_proposal_id
        (abs_ℤ p.exposure_summary.net_exposure_bps) (constraint_by_type constraints net_exposure)

  unfoldable pub turnover_checks :
      List (PortfolioConstraint F) → PortfolioProposal F → List (RiskCheck F)
  turnover_checks constraints p =
      limit_checks "flat_start_turnover_limit" fail medium true
        "Flat-start turnover assumption exceeds the turnover limit." p.portfolio_proposal_id
        p.exposure_summary.turnover_bps_assumption (constraint_by_type constraints turnover)

  -- The three hard limits, in the order of the code.
  unfoldable pub exposure_checks :
      List (PortfolioConstraint F) → PortfolioProposal F → List (RiskCheck F)
  exposure_checks constraints p =
      gross_checks constraints p ++ (net_checks constraints p ++ turnover_checks constraints p)

  -- `_proposal_is_concentration_fragile`
  unfoldable pub is_concentration_fragile : PortfolioProposal F → Bool
  is_concentration_fragile p =
      if is_empty p.position_ideas
      then false
      else if ltb (length p.position_ideas) 3
      then true
      else if not (ltb_ℤ (pos 0) p.exposure_summary.gross_exposure_bps)
      then false
      else float.at_least_half
          (float.ratio (max_weight p.position_ideas) p.exposure_summary.gross_exposure_bps)

  unfoldable pub concentration_checks : PortfolioProposal F → List (RiskCheck F)
  unfolding is_concentration_fragile
  concentration_checks p =
      if is_concentration_fragile p
      then build_risk_check "portfolio_proposal" p.portfolio_proposal_id
          "portfolio_concentration_fragility" warn medium false
          "Portfolio proposal is concentration-fragile under current sizing assumptions."
          (record {
            portfolio_constraint_id = none;
            observed_value = some (
                float.times
                  (float.ratio (max_weight p.position_ideas)
                    (max_ℤ p.exposure_summary.gross_exposure_bps (pos 1)))
                  (float.of_int (pos 100)));
            limit_value = some (float.of_int (pos 50));
            unit = some "pct";
          })
        ∷ []
      else []

unfoldable pub stress_checks :
    {F : Type 0} → ReviewContext F → PortfolioProposal F → List (RiskCheck F)
stress_checks x p =
    if any (λ status. not (is_pass status)) x.stress_test_results
    then build_risk_check "portfolio_proposal" p.portfolio_proposal_id "portfolio_stress_fragility"
        warn medium false "Structured stress testing surfaced warning-level fragility." unmeasured
      ∷ []
    else []
