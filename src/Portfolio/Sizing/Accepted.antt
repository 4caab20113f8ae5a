-- ===== src/Portfolio/Sizing/Accepted.antt =====
-- What is known of a candidate that the construction loop accepts.
use ai_native_hedge_fund_ch.Prelude.{
  ℕ, String, ◌≡◌, refl, sym, ap, ◌∙◌, true, false, none, some, List, [], ◌∷◌, arith, All, filter,
  filter-nil, is_empty, HasDistinctKeys, dict_values, dict_values_distinct, All-right, ok,
  >>=-eq-ok, Bool-cases, Option-cases, inl, inr,
}
use ai_native_hedge_fund_ch.Prelude.Int.{ℤ, pos, ◌≤ℤ◌}
use ai_native_hedge_fund_ch.PyFloat.{Float}
use ai_native_hedge_fund_ch.Schemas.Enums.{PositionSide, is_fail, is_flat, single_name}
use ai_native_hedge_fund_ch.Schemas.Portfolio.{
  PortfolioConstraint, PositionIdea, validate_position_idea,
}
use ai_native_hedge_fund_ch.Portfolio.Inputs.{LoadedPortfolioInputs}
use ai_native_hedge_fund_ch.Portfolio.Limits.{
  ConstraintResult, constraint_by_type, single_name_constraint_result, projected_metric,
  projected_exposures, project_portfolio_constraint_results,
}
use ai_native_hedge_fund_ch.Portfolio.Limits.Within.{
  Within, Within-of_no_fail, loop_distinct, single_name_fresh,
}
use ai_native_hedge_fund_ch.Portfolio.Decisions.{Identity, result_id_of}
use ai_native_hedge_fund_ch.Portfolio.Intake.{CandidateContext}
use ai_native_hedge_fund_ch.Portfolio.Ranking.{base_weight_bps}
use ai_native_hedge_fund_ch.Portfolio.Sizing.{
  Selected, accepted, validate_rationale, single_name_step, candidate_results, position_idea_of,
  rationale_of, accept, attempt,
}

-- An idea that the validator accepts is unchanged, within its cap, and positive unless it is flat.
pub validate_position_idea_ok :
    (idea : PositionIdea) {valid : PositionIdea}
    → validate_position_idea idea ≡ ok valid
    → (valid ≡ idea)
      × (idea.proposed_weight_bps ≤ℤ idea.max_weight_bps)
      × (is_flat idea.side ≡ false → pos 1 ≤ℤ idea.proposed_weight_bps)
unfolding validate_position_idea
validate_position_idea_ok idea h = ground arith

-- Distinct constraints of the list have distinct result identifiers, whatever the subject is.
pub record HasDistinctResults {F : Type 0} (ids : Identity)
    (constraints : List (PortfolioConstraint F)) : Type 0 where
  pub distinct :
      (subject_id : String)
      → HasDistinctKeys (λ c. result_id_of ids subject_id c.portfolio_constraint_id) constraints

module _ {F : Type 0} (float : Float F) (inputs : LoadedPortfolioInputs F) (ids : Identity) where
  -- What an accepted candidate leaves behind.
  pub record IsAccepted (now : ℕ) (constraints : List (PortfolioConstraint F))
      (c : CandidateContext F) (chosen : Selected F) : Type 0 where
    pub same_candidate : chosen.candidate ≡ c
    pub idea :
        chosen.position_idea
        ≡ position_idea_of float inputs ids c
            (single_name_step float inputs ids constraints c.signal).1
            now
    pub fits : (single_name_step float inputs ids constraints c.signal).1 ≤ℤ pos 500
    pub positive :
        is_flat c.side ≡ false → pos 1 ≤ℤ (single_name_step float inputs ids constraints c.signal).1
    pub within :
        HasDistinctResults ids constraints
        → All
            (Within float (
              projected_metric (
                projected_exposures [] c.side
                  (single_name_step float inputs ids constraints c.signal).1)))
            constraints

  no_single_metric :
      (side : PositionSide) (w : ℤ)
      → projected_metric (projected_exposures [] side w) single_name ≡ none
  unfolding projected_metric
  no_single_metric side w = refl

  module _ (constraints : List (PortfolioConstraint F)) (c : CandidateContext F) where
    abbrev final_weight : ℤ
    final_weight = (single_name_step float inputs ids constraints c.signal).1

    abbrev projected : List (ConstraintResult F)
    projected =
        project_portfolio_constraint_results float (result_id_of ids c.signal.signal_id) []
          c.signal.signal_id c.side final_weight constraints

    step_without_limit :
        constraint_by_type constraints single_name ≡ none
        → (single_name_step float inputs ids constraints c.signal).0 ≡ []
    unfolding single_name_step
    step_without_limit e = rw (e, single_name_step)

    step_with_limit :
        (single : PortfolioConstraint F)
        → constraint_by_type constraints single_name ≡ some single
        → (r : ConstraintResult F) × ((single_name_step float inputs ids constraints c.signal).0
            ≡ r ∷ [])
          × (r.constraint_result_id
              ≡ result_id_of ids c.signal.signal_id single.portfolio_constraint_id)
    unfolding single_name_step single_name_constraint_result
    step_with_limit single e = (
      (single_name_constraint_result float (result_id_of ids c.signal.signal_id) c.signal.signal_id
          (base_weight_bps c.signal) (pos 500) single).0,
      rw (e, single_name_step),
      refl,
    )

    -- No two results of one candidate share an identifier.
    candidate_results_distinct :
        HasDistinctResults ids constraints
        → HasDistinctKeys
            (λ r. r.constraint_result_id)
            (candidate_results float inputs ids [] constraints c)
    unfolding candidate_results project_portfolio_constraint_results
    candidate_results_distinct d =
        let metric = projected_metric (projected_exposures [] c.side final_weight) in
        let result_id = result_id_of ids c.signal.signal_id in
        let rest =
          loop_distinct float metric result_id "candidate_signal" c.signal.signal_id constraints
            (d.distinct c.signal.signal_id) in
        elim (Option-cases (constraint_by_type constraints single_name)) [
          | inl absent ↦ rw (step_without_limit absent) rest
          | inr (single, e) ↦
              let (r, shape, id) = step_with_limit single e in
              rw shape (
                rw id (
                    single_name_fresh float metric result_id "candidate_signal" c.signal.signal_id
                      constraints single (no_single_metric c.side final_weight)
                      (d.distinct c.signal.signal_id) e),
                rest,
              )
        ]

    accept_lem :
        (now : ℕ) (all_results results : List (ConstraintResult F)) {chosen : Selected F}
        → accept float inputs ids now c final_weight all_results results ≡ ok (accepted chosen)
        → (chosen.candidate ≡ c)
          × (chosen.position_idea ≡ position_idea_of float inputs ids c final_weight now)
          × (validate_position_idea (position_idea_of float inputs ids c final_weight now)
              ≡ ok chosen.position_idea)
    unfolding accept
    accept_lem now all_results results {chosen} h =
        let idea = position_idea_of float inputs ids c final_weight now in
        let (valid, checked, more) = >>=-eq-ok (validate_position_idea idea) _ h in
        let (rationale, checked', done) =
          >>=-eq-ok (validate_rationale (rationale_of float inputs ids c final_weight all_results))
            _ more in
        let kept : valid ≡ chosen.position_idea = ground arith in
        (ground arith, sym kept ∙ (validate_position_idea_ok idea checked).0, checked ∙ ap ok kept)

    -- With distinct identifiers no result is merged away, so no limit is exceeded.
    Within-of_attempt :
        HasDistinctResults ids constraints
        → is_empty (
            filter
              (λ r. is_fail r.status)
              (dict_values
                (λ r. r.constraint_result_id)
                (candidate_results float inputs ids [] constraints c)))
          ≡ true
        → All
            (Within float (projected_metric (projected_exposures [] c.side final_weight)))
            constraints
    unfolding candidate_results project_portfolio_constraint_results
    Within-of_attempt d e =
        let all_results = candidate_results float inputs ids [] constraints c in
        let kept =
          dict_values_distinct (λ r. r.constraint_result_id) all_results
            (candidate_results_distinct d) in
        Within-of_no_fail float (projected_metric (projected_exposures [] c.side final_weight))
          (result_id_of ids c.signal.signal_id) "candidate_signal" c.signal.signal_id constraints
          (All-right (λ r. is_fail r.status ≡ false)
            (single_name_step float inputs ids constraints c.signal).0 projected
            (filter-nil (λ r. is_fail r.status) all_results (rw kept at e)))

    weight_bounds :
        (now : ℕ)
        → validate_position_idea (position_idea_of float inputs ids c final_weight now)
          ≡ ok (position_idea_of float inputs ids c final_weight now)
        → (final_weight ≤ℤ pos 500) × (is_flat c.side ≡ false → pos 1 ≤ℤ final_weight)
    unfolding position_idea_of
    weight_bounds now e =
        let (same, fits, positive) =
          validate_position_idea_ok (position_idea_of float inputs ids c final_weight now) e in
        (fits, positive)

    -- An accepted candidate had no failing result, and its idea passed the validator.
    pub attempt_accepted :
        (now : ℕ) {chosen : Selected F}
        → attempt float inputs ids now [] constraints c ≡ ok (accepted chosen)
        → IsAccepted now constraints c chosen
    unfolding attempt
    attempt_accepted now {chosen} h =
        let all_results = candidate_results float inputs ids [] constraints c in
        let results = dict_values (λ r. r.constraint_result_id) all_results in
        let failing = filter (λ r. is_fail r.status) results in
        elim (Bool-cases (is_empty failing)) [
          | inr some_fail ↦ absurd (cc (rw some_fail at h))
          | inl none_fails ↦
              let (same, idea, valid) = accept_lem now all_results results (rw none_fails at h) in
              let (fits, positive) = weight_bounds now (valid ∙ ap ok idea) in
              record {
                same_candidate = same;
                idea = idea;
                fits = fits;
                positive = positive;
                within = λ d. Within-of_attempt d none_fails;
              }
        ]
