-- ===== src/Portfolio/Selection/Survivor.antt =====
-- The proposal has at most one idea, that of a candidate which the loop accepted.
use ai_native_hedge_fund_ch.Prelude.{
  ℕ, ◌≡◌, refl, sym, ap, ◌∙◌, some, List, [], ◌∷◌, ◌⊎◌, inl, inr, arith, Result, ok, err,
  ok_injective, >>=-eq-ok, Bool-cases, Option-cases, is_some, ◌&&◌,
}
use ai_native_hedge_fund_ch.PyFloat.{Float}
use ai_native_hedge_fund_ch.Schemas.Portfolio.{PortfolioConstraint, PositionIdea}
use ai_native_hedge_fund_ch.Portfolio.Inputs.{LoadedPortfolioInputs, withholds_primary}
use ai_native_hedge_fund_ch.Portfolio.Decisions.{Identity}
use ai_native_hedge_fund_ch.Portfolio.Intake.{CandidateContext}
use ai_native_hedge_fund_ch.Portfolio.Ranking.{is_opposing_tie}
use ai_native_hedge_fund_ch.Portfolio.Sizing.{Selected, Attempt, breached, accepted, attempt}
use ai_native_hedge_fund_ch.Portfolio.Sizing.Accepted.{IsAccepted, attempt_accepted}
use ai_native_hedge_fund_ch.Portfolio.Selection.{
  Progress, LoopOutcome, PortfolioSelectionBuildResult, after_round, select_first, reject_all,
  record_outcome, compete, assemble, ranked_candidates, build_portfolio_selection,
}

after_round_selected :
    {F : Type 0} (round : Attempt F) (later : Result (LoopOutcome F)) {outcome : LoopOutcome F}
    → {chosen : Selected F} → after_round round later ≡ ok outcome
    → outcome.selected ≡ some chosen
    → (round ≡ accepted chosen)
      ⊎ ((others : LoopOutcome F) × (later ≡ ok others) × (others.selected ≡ some chosen))
unfolding after_round
after_round_selected (accepted winner) later h e = inl (ground arith)
after_round_selected (breached results decision) (err message) h e = absurd (cc)
after_round_selected (breached results decision) (ok others) h e = inr (others, refl, ground arith)

module _ {F : Type 0} (float : Float F) (inputs : LoadedPortfolioInputs F) (ids : Identity) where
  module _ (now : ℕ) (constraints : List (PortfolioConstraint F)) where
    -- The idea of an accepted candidate.
    pub record Survivor (idea : PositionIdea) : Type 0 where
      pub candidate : CandidateContext F
      pub chosen : Selected F
      pub accepted_as : IsAccepted float inputs ids now constraints candidate chosen
      pub same_idea : idea ≡ chosen.position_idea

    -- No idea, or that of one survivor.
    pub data HasAtMostOne (ideas : List PositionIdea) : Type 0 where
      empty : ideas ≡ [] → HasAtMostOne ideas
      one : (idea : PositionIdea) → ideas ≡ idea ∷ [] → Survivor idea → HasAtMostOne ideas

    select_first_selected :
        (cs : List (CandidateContext F)) {outcome : LoopOutcome F} {chosen : Selected F}
        → select_first float inputs ids now constraints cs ≡ ok outcome
        → outcome.selected ≡ some chosen
        → (c : CandidateContext F) × (attempt float inputs ids now [] constraints c
            ≡ ok (accepted chosen))
    unfolding select_first
    select_first_selected [] h e = absurd (ground arith)
    select_first_selected (c ∷ cs) {outcome} {chosen} h e =
        let (round, tried, rest) = >>=-eq-ok (attempt float inputs ids now [] constraints c) _ h in
        elim (after_round_selected round (select_first float inputs ids now constraints cs) rest
          e) [
            | inl won ↦ (c, tried ∙ ap ok won)
            | inr (others, later, e') ↦ select_first_selected cs later e'
          ]

    record_outcome_ideas :
        (ranked : List (CandidateContext F)) (outcome : LoopOutcome F)
        → select_first float inputs ids now constraints ranked ≡ ok outcome
        → HasAtMostOne (record_outcome float inputs ids ranked outcome).position_ideas
    unfolding record_outcome
    record_outcome_ideas ranked outcome h = elim (Option-cases outcome.selected) [
      | inl nobody ↦ empty (rw (nobody, record_outcome) refl)
      | inr (chosen, e) ↦
          let (c, tried) = select_first_selected ranked h e in
          one chosen.position_idea (rw (e, record_outcome) refl) (record {
            candidate = c;
            chosen = chosen;
            accepted_as = attempt_accepted float inputs ids constraints c now tried;
            same_idea = refl;
          })
    ]

    compete_ideas :
        (ranked : List (CandidateContext F)) {progress : Progress F}
        → compete float inputs ids now constraints ranked ≡ ok progress
        → HasAtMostOne progress.position_ideas
    unfolding compete
    compete_ideas [] h = empty (ground arith)
    compete_ideas (top ∷ rest) {progress} h =
        elim (Bool-cases (is_opposing_tie float inputs top (top ∷ rest))) [
          | inl tie ↦
              let done : ok (reject_all float inputs ids top (top ∷ rest)) ≡ ok progress =
                rw tie at h in
              rw (sym (ok_injective done)) (empty (unfold reject_all in refl))
          | inr clear ↦
              let (outcome, run, done) =
                >>=-eq-ok (select_first float inputs ids now constraints (top ∷ rest)) _
                  (rw clear at h) in
              rw (sym (ok_injective done)) (record_outcome_ideas (top ∷ rest) outcome run)
        ]

    -- A finished construction proposes at most one idea, and that one was accepted.
    pub build_portfolio_selection_ideas :
        {result : PortfolioSelectionBuildResult F}
        → build_portfolio_selection float inputs ids now constraints ≡ ok result
        → HasAtMostOne result.position_ideas
    unfolding build_portfolio_selection
    build_portfolio_selection_ideas {result} h =
        elim (Bool-cases
          (is_some inputs.signal_bundle_id && withholds_primary inputs.arbitration_decision)) [
            | inl withheld ↦ rw (sym (ok_injective (rw withheld at h))) (empty refl)
            | inr proceeds ↦
                let (progress, run, done) =
                  >>=-eq-ok
                    (compete float inputs ids now constraints (ranked_candidates float inputs ids))
                    _ (rw proceeds at h) in
                rw (sym (ok_injective done))
                  (unfold assemble in compete_ideas (ranked_candidates float inputs ids) run)
          ]
