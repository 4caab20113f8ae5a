-- ===== src/Portfolio/Selection/Complete/Looped.antt =====
-- What the loop over the ranked candidates decides.
use ai_native_hedge_fund_ch.Prelude.{
  ℕ, ◌≡◌, refl, sym, ap, ◌∙◌, none, some, List, [], ◌∷◌, ◌++◌, inl, inr, filter, is_empty, Elem,
  dict_values, Bool-cases, Result, ok, err, ok_injective, >>=-eq-ok,
}
use ai_native_hedge_fund_ch.PyFloat.{Float}
use ai_native_hedge_fund_ch.Schemas.Enums.{is_fail}
use ai_native_hedge_fund_ch.Schemas.Portfolio.{PortfolioConstraint, validate_position_idea}
use ai_native_hedge_fund_ch.Portfolio.Inputs.{LoadedPortfolioInputs}
use ai_native_hedge_fund_ch.Portfolio.Limits.{ConstraintResult}
use ai_native_hedge_fund_ch.Portfolio.Decisions.{Identity, build_rejected_construction_decision}
use ai_native_hedge_fund_ch.Portfolio.Intake.{CandidateContext}
use ai_native_hedge_fund_ch.Portfolio.Sizing.{
  Selected, Attempt, breached, accepted, validate_rationale, candidate_results, single_name_step,
  position_idea_of, rationale_of, included_decision, breach_decision, accept, attempt,
}
use ai_native_hedge_fund_ch.Portfolio.Selection.{LoopOutcome, after_round, select_first}
use ai_native_hedge_fund_ch.Portfolio.Selection.Complete.TakenIn.{key, Has, id_of}

module _ {F : Type 0} (float : Float F) (inputs : LoadedPortfolioInputs F) (ids : Identity) where
  module _ (now : ℕ) (constraints : List (PortfolioConstraint F)) where
    -- The decision that a round records is that of its candidate.
    abbrev IsRoundOf : CandidateContext F → Attempt F → Type 0
    IsRoundOf c (breached results decision) = key decision ≡ id_of ids c
    IsRoundOf c (accepted chosen) = (chosen.candidate ≡ c) × (key chosen.decision ≡ id_of ids c)

    accept_round :
        (c : CandidateContext F) (w : _) (all_results results : List (ConstraintResult F))
        {round : Attempt F}
        → accept float inputs ids now c w all_results results ≡ ok round
        → IsRoundOf c round
    unfolding accept included_decision
    accept_round c w all_results results {round} h =
        let (idea, valid, more) =
          >>=-eq-ok (validate_position_idea (position_idea_of float inputs ids c w now)) _ h in
        let (rationale, valid', done) =
          >>=-eq-ok (validate_rationale (rationale_of float inputs ids c w all_results)) _ more in
        rw (sym (ok_injective done)) (refl, refl)

    attempt_round :
        (c : CandidateContext F) {round : Attempt F}
        → attempt float inputs ids now [] constraints c ≡ ok round
        → IsRoundOf c round
    unfolding attempt breach_decision build_rejected_construction_decision
    attempt_round c {round} h =
        let all_results = candidate_results float inputs ids [] constraints c in
        let results =
          dict_values (λ (r : ConstraintResult F). r.constraint_result_id) all_results in
        elim (Bool-cases (is_empty (filter (λ r. is_fail r.status) results))) [
          | inl e ↦
              accept_round c (single_name_step float inputs ids constraints c.signal).1 all_results
                results (rw e at h)
          | inr e ↦ rw (sym (ok_injective (rw e at h))) refl
        ]

    -- The loop decided on every candidate, or it has a survivor among them.
    pub data IsLooped (cs : List (CandidateContext F)) (outcome : LoopOutcome F) : Type 0 where
      exhausted :
          outcome.selected ≡ none
          → ((c : CandidateContext F) → Elem c cs → Has (id_of ids c) outcome.decisions)
          → IsLooped cs outcome
      won :
          (chosen : Selected F)
          → outcome.selected ≡ some chosen
          → Elem chosen.candidate cs
          → key chosen.decision ≡ id_of ids chosen.candidate
          → IsLooped cs outcome

    round-IsLooped :
        (c : CandidateContext F) (cs : List (CandidateContext F)) (round : Attempt F)
        (later : Result (LoopOutcome F)) {outcome : LoopOutcome F}
        → IsRoundOf c round
        → after_round round later ≡ ok outcome
        → ((others : LoopOutcome F) → later ≡ ok others → IsLooped cs others)
        → IsLooped (c ∷ cs) outcome
    unfolding after_round
    round-IsLooped c cs (accepted chosen) later {outcome} r h rec =
        rw (sym (ok_injective h)) (won chosen refl (inl r.0) (r.1 ∙ ap (id_of ids) (sym r.0)))
    round-IsLooped c cs (breached results decision) (err message) r h rec = absurd (cc (h))
    round-IsLooped c cs (breached results decision) (ok others) {outcome} r h rec =
        rw (sym (ok_injective h)) (extend (rec others refl))
      where
        decided :
            ((d : CandidateContext F) → Elem d cs → Has (id_of ids d) others.decisions)
            → (d : CandidateContext F) → Elem d (c ∷ cs)
            → Has (id_of ids d) (decision ∷ others.decisions)
        decided rest d (inl e) = inl (ap (id_of ids) e ∙ sym r)
        decided rest d (inr e) = inr (rest d e)

        extend :
            IsLooped cs others
            → IsLooped (c ∷ cs) (record {
              constraint_results = results ++ others.constraint_results;
              decisions = decision ∷ others.decisions;
              selected = others.selected;
            })
        extend (exhausted e rest) = exhausted e (decided rest)
        extend (won chosen e member same) = won chosen e (inr member) same

    pub select_first-IsLooped :
        (cs : List (CandidateContext F)) {outcome : LoopOutcome F}
        → select_first float inputs ids now constraints cs ≡ ok outcome
        → IsLooped cs outcome
    unfolding select_first
    select_first-IsLooped [] h = rw (sym (ok_injective h)) (exhausted refl (λ c e. absurd (e)))
    select_first-IsLooped (c ∷ cs) {outcome} h =
        let (round, tried, rest) = >>=-eq-ok (attempt float inputs ids now [] constraints c) _ h in
        round-IsLooped c cs round (select_first float inputs ids now constraints cs)
          (attempt_round c tried) rest (λ others later. select_first-IsLooped cs later)
