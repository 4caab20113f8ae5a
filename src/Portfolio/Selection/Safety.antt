-- ===== src/Portfolio/Selection/Safety.antt =====
-- The construction respects the hard limits that the proposal carries.
use mathlib.Core.Path.{fun_ext, ap₂}
use ai_native_hedge_fund_ch.Prelude.{
  ℕ, ◌≡◌, refl, sym, ap, ◌∙◌, Bool, some, List, [], ◌∷◌, ◌⊎◌, inl, inr, All, ok, Bool-cases,
  if◌then◌else◌,
}
use ai_native_hedge_fund_ch.Prelude.Int.{pos, ◌+ℤ◌, ◌-ℤ◌, +ℤ_zero_left}
use ai_native_hedge_fund_ch.PyFloat.{Float}
use ai_native_hedge_fund_ch.Schemas.Enums.{ConstraintType, PositionSide, is_long, is_short}
use ai_native_hedge_fund_ch.Schemas.Portfolio.{PortfolioConstraint, PositionIdea}
use ai_native_hedge_fund_ch.Portfolio.Inputs.{LoadedPortfolioInputs}
use ai_native_hedge_fund_ch.Portfolio.Exposure.{weight_on}
use ai_native_hedge_fund_ch.Portfolio.Limits.{
  Exposures, projected_metric, projected_exposures, final_exposures,
}
use ai_native_hedge_fund_ch.Portfolio.Limits.Within.{Within}
use ai_native_hedge_fund_ch.Portfolio.Decisions.{Identity}
use ai_native_hedge_fund_ch.Portfolio.Sizing.{position_idea_of}
use ai_native_hedge_fund_ch.Portfolio.Sizing.Accepted.{HasDistinctResults}
use ai_native_hedge_fund_ch.Portfolio.Selection.{
  PortfolioSelectionBuildResult, build_portfolio_selection,
}
use ai_native_hedge_fund_ch.Portfolio.Selection.Survivor.{
  Survivor, HasAtMostOne, empty, one, build_portfolio_selection_ideas,
}

-- The portfolio metrics read the gross and the net exposure only.
metric_cong :
    (a b : Exposures) → a.gross ≡ b.gross → a.net ≡ b.net → projected_metric a ≡ projected_metric b
unfolding projected_metric
metric_cong a b g n = fun_ext λ t. same t
  where
    same : (t : ConstraintType) → projected_metric a t ≡ projected_metric b t
    same ConstraintType.gross_exposure = ap some g
    same ConstraintType.net_exposure = rw n refl
    same ConstraintType.turnover = ap some g
    same _ = refl

-- One idea adds its weight to its own side.
weight_on_one :
    (test : PositionSide → Bool) (idea : PositionIdea)
    → weight_on test (idea ∷ [])
      ≡ weight_on test [] +ℤ (if test idea.side then idea.proposed_weight_bps else pos 0)
unfolding weight_on
weight_on_one test idea = elim (Bool-cases (test idea.side)) [
  | inl t ↦ rw t refl
  | inr f ↦ rw f (sym (+ℤ_zero_left (pos 0)))
]

-- The exposures of a single idea are those that were projected for it.
pub exposures_of_one :
    (idea : PositionIdea)
    → projected_metric (final_exposures (idea ∷ []))
      ≡ projected_metric (projected_exposures [] idea.side idea.proposed_weight_bps)
unfolding final_exposures projected_exposures
exposures_of_one idea =
    metric_cong _ _ (ap₂ (λ a b. a +ℤ b) (weight_on_one is_long idea) (weight_on_one is_short idea))
      (ap₂ (λ a b. a -ℤ b) (weight_on_one is_long idea) (weight_on_one is_short idea))

module _ {F : Type 0} (float : Float F) (inputs : LoadedPortfolioInputs F) (ids : Identity)
    (now : ℕ) (constraints : List (PortfolioConstraint F)) where
  Survivor-Within :
      {idea : PositionIdea}
      → HasDistinctResults ids constraints
      → Survivor float inputs ids now constraints idea
      → All (Within float (projected_metric (final_exposures (idea ∷ [])))) constraints
  unfolding position_idea_of
  Survivor-Within {idea} d s =
      let same = s.same_idea ∙ s.accepted_as.idea in
      rw same (rw (exposures_of_one _) (s.accepted_as.within d))

  -- If the construction finishes and the constraints have distinct identifiers, then it proposes
  -- nothing, or every active gross, net or turnover limit is respected by the exposures of what it
  -- proposes.
  pub proposal-Within_limits :
      {result : PortfolioSelectionBuildResult F}
      → HasDistinctResults ids constraints
      → build_portfolio_selection float inputs ids now constraints ≡ ok result
      → (result.position_ideas ≡ [])
        ⊎ All (Within float (projected_metric (final_exposures result.position_ideas))) constraints
  proposal-Within_limits {result} d h =
      outcome (build_portfolio_selection_ideas float inputs ids now constraints h)
    where
      outcome :
          HasAtMostOne float inputs ids now constraints result.position_ideas
          → (result.position_ideas ≡ [])
            ⊎ All
                (Within float (projected_metric (final_exposures result.position_ideas)))
                constraints
      outcome (empty e) = inl e
      outcome (one idea e s) = inr (rw e (Survivor-Within d s))
