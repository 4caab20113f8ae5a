-- ===== src/Portfolio/Selection/Weight.antt =====
-- The weight of a proposed idea.
use ai_native_hedge_fund_ch.Prelude.{
  ℕ, ◌≡◌, refl, ap, ◌∙◌, Bool, false, Option, none, some, List, inl, inr, Elem, not, ◌&&◌,
  Option-cases, Bool-cases, arith, ok,
}
use ai_native_hedge_fund_ch.Prelude.Int.{ℤ, pos, ◌≤ℤ◌}
use ai_native_hedge_fund_ch.PyFloat.{Float, IsExact}
use ai_native_hedge_fund_ch.Schemas.Enums.{is_flat, single_name}
use ai_native_hedge_fund_ch.Schemas.Portfolio.{PortfolioConstraint, PositionIdea}
use ai_native_hedge_fund_ch.Portfolio.Inputs.{Signal, LoadedPortfolioInputs}
use ai_native_hedge_fund_ch.Portfolio.Limits.{
  constraint_by_type, whole_limit, capped_weight, single_name_constraint_result,
}
use ai_native_hedge_fund_ch.Portfolio.Decisions.{Identity}
use ai_native_hedge_fund_ch.Portfolio.Ranking.{base_weight_bps}
use ai_native_hedge_fund_ch.Portfolio.Sizing.{single_name_step, position_idea_of}
use ai_native_hedge_fund_ch.Portfolio.Selection.{
  PortfolioSelectionBuildResult, build_portfolio_selection,
}
use ai_native_hedge_fund_ch.Portfolio.Selection.Survivor.{
  Survivor, HasAtMostOne, empty, one, build_portfolio_selection_ideas,
}

module _ {F : Type 0} (float : Float F) where
  capped_at_limit :
      (base : ℤ) (limit : F)
      → float.is_zero limit ≡ false
      → capped_weight float base (pos 500) (some limit) ≤ℤ float.trunc limit
  unfolding capped_weight whole_limit
  capped_at_limit base limit h = ground arith

  -- The weight is above the hard limit of the constraint, if it has one other than zero.
  abbrev pub exceeds : ℤ → Option (PortfolioConstraint F) → Bool
  exceeds weight none = false
  exceeds weight (some c) = elim c.hard_limit [
    | none ↦ false
    | some limit ↦ not (float.is_zero limit) && float.gt (float.of_int weight) limit
  ]

  module _ (inputs : LoadedPortfolioInputs F) (ids : Identity) (now : ℕ)
      (constraints : List (PortfolioConstraint F)) where
    -- The weight is from 1 up to 500 basis points, and not above the single-name limit.
    pub record IsSized (idea : PositionIdea) : Type 0 where
      pub positive : pos 1 ≤ℤ idea.proposed_weight_bps
      pub at_most : idea.proposed_weight_bps ≤ℤ pos 500
      pub single :
          exceeds idea.proposed_weight_bps (constraint_by_type constraints single_name) ≡ false

    step_weight :
        (signal : Signal F) (c : PortfolioConstraint F) (limit : F)
        → constraint_by_type constraints single_name ≡ some c
        → c.hard_limit ≡ some limit
        → (single_name_step float inputs ids constraints signal).1
          ≡ capped_weight float (base_weight_bps signal) (pos 500) (some limit)
    unfolding single_name_step single_name_constraint_result
    step_weight signal c limit found l = rw (single_name_step, found, l) refl

    step_within :
        IsExact float
        → (signal : Signal F) → pos 1 ≤ℤ (single_name_step float inputs ids constraints signal).1
        → exceeds
            (single_name_step float inputs ids constraints signal).1
            (constraint_by_type constraints single_name)
          ≡ false
    step_within exact signal positive =
        elim (Option-cases (constraint_by_type constraints single_name)) [
          | inl absent ↦ rw absent refl
          | inr (c, found) ↦ elim (Option-cases c.hard_limit) [
            | inl unlimited ↦ rw found (rw unlimited refl)
            | inr (limit, l) ↦ elim (Bool-cases (float.is_zero limit)) [
              | inl zero_limit ↦ rw found (rw l (rw zero_limit refl))
              | inr nonzero ↦
                  let final = step_weight signal c limit found l in
                  let below =
                    exact.trunc_bound limit _ positive
                      (rw final (capped_at_limit (base_weight_bps signal) limit nonzero)) in
                  rw found (rw l (rw nonzero below))
            ]
          ]
        ]

    Survivor-IsSized :
        IsExact float
        → {idea : PositionIdea} → Survivor float inputs ids now constraints idea
        → is_flat idea.side ≡ false
        → IsSized idea
    unfolding position_idea_of
    Survivor-IsSized exact {idea} s directional =
        let same = s.same_idea ∙ s.accepted_as.idea in
        let weight = ap (λ i. i.proposed_weight_bps) same in
        let side = ap (λ i. i.side) same in
        let positive = s.accepted_as.positive (rw (← side) directional) in
        record {
          positive = rw weight positive;
          at_most = rw weight s.accepted_as.fits;
          single = rw weight (step_within exact s.candidate.signal positive);
        }

    -- On exact numbers every directional idea that a finished construction proposes has a weight
    -- from 1 up to 500 basis points, and its weight is not above the hard limit of the first active
    -- single-name constraint, where there is one with a limit other than zero.
    pub proposal-IsSized :
        {result : PortfolioSelectionBuildResult F} (idea : PositionIdea)
        → IsExact float
        → build_portfolio_selection float inputs ids now constraints ≡ ok result
        → Elem idea result.position_ideas
        → is_flat idea.side ≡ false
        → IsSized idea
    proposal-IsSized {result} idea exact h member directional =
        outcome (build_portfolio_selection_ideas float inputs ids now constraints h)
      where
        outcome : HasAtMostOne float inputs ids now constraints result.position_ideas → IsSized idea
        outcome (empty e) = absurd (rw e at member)
        outcome (one other e s) = elim (rw e at member) [
          | inl same ↦ rw same (Survivor-IsSized exact s (rw same at directional))
          | inr none_left ↦ absurd none_left
        ]
