-- ===== src/Portfolio/Sizing.antt =====
-- One candidate of the construction loop: it is sized and checked, and it becomes a position idea
-- or a rejection.
pub mod Accepted
use ai_native_hedge_fund_ch.Prelude.{
  ℕ, String, Bool, true, false, Option, none, some, List, [], ◌∷◌, ◌++◌, map, filter, is_empty,
  dict_values, sorted_set, not, Result, ok, err, raise_if, ◌>>=◌, ◌>>◌, if◌then◌else◌,
}
use ai_native_hedge_fund_ch.Prelude.Int.{ℤ, pos, ltb_ℤ}
use ai_native_hedge_fund_ch.PyFloat.{Float}
use ai_native_hedge_fund_ch.Schemas.Enums.{
  ResearchStance, PositionIdeaStatus, single_name, is_fail, positive, negative, mixed, monitor,
}
use ai_native_hedge_fund_ch.Schemas.Portfolio.{
  PortfolioConstraint, PositionIdea, validate_position_idea,
}
use ai_native_hedge_fund_ch.Portfolio.Inputs.{
  Signal, LoadedPortfolioInputs, ArbitrationDecision, is_selected_primary,
}
use ai_native_hedge_fund_ch.Portfolio.Limits.{
  ConstraintResult, constraint_by_type, single_name_constraint_result,
  project_portfolio_constraint_results,
}
use ai_native_hedge_fund_ch.Portfolio.Decisions.{
  Identity, ConstructionDecision, ProposalRejectionReason, included, portfolio_constraint_breach,
  decision_id_of, result_id_of, build_rejected_construction_decision,
}
use ai_native_hedge_fund_ch.Portfolio.Intake.{CandidateContext}
use ai_native_hedge_fund_ch.Portfolio.Ranking.{base_weight_bps}

pub record PositionSizingRationale : Type 0 where
  pub position_sizing_rationale_id : String
  pub position_idea_id : String
  pub signal_id : String
  pub base_weight_bps : ℤ
  pub final_weight_bps : ℤ
  pub max_weight_bps : ℤ
  pub binding_constraint_ids : List String

-- The weights that `PositionSizingRationale` accepts.
unfoldable pub validate_rationale : PositionSizingRationale → Result PositionSizingRationale
validate_rationale r = do
  raise_if (not (ltb_ℤ (pos 0) r.base_weight_bps)) "base_weight_bps must be greater than zero."
  raise_if (not (ltb_ℤ (pos 0) r.final_weight_bps)) "final_weight_bps must be greater than zero."
  raise_if (not (ltb_ℤ (pos 0) r.max_weight_bps)) "max_weight_bps must be greater than zero."
  raise_if (ltb_ℤ r.max_weight_bps r.final_weight_bps)
      "final_weight_bps must not exceed max_weight_bps."
  raise_if (ltb_ℤ r.base_weight_bps r.final_weight_bps)
      "base_weight_bps must be greater than or equal to final_weight_bps."
  ok r

-- What the loop keeps when a candidate survives.
pub record Selected (F : Type 0) : Type 0 where
  pub candidate : CandidateContext F
  pub position_idea : PositionIdea
  pub rationale : PositionSizingRationale
  pub decision : ConstructionDecision
  pub results : List (ConstraintResult F)

pub data Attempt (F : Type 0) : Type 0 where
  breached : List (ConstraintResult F) → ConstructionDecision → Attempt F
  accepted : Selected F → Attempt F

unfoldable pub stance_value : ResearchStance → String
stance_value positive = "positive"
stance_value negative = "negative"
stance_value mixed = "mixed"
stance_value monitor = "monitor"

module _ {F : Type 0} (float : Float F) (inputs : LoadedPortfolioInputs F) (ids : Identity) where
  -- `_selection_reason`, up to the family, the score and the stance that the text quotes.
  unfoldable pub selection_reason : Signal F → String
  selection_reason signal =
      if is_selected_primary inputs.arbitration_decision signal.signal_id
      then "Selected from arbitrated primary signal"
      else elim inputs.signal_bundle_id [
        | none ↦ "Selected from raw signal"
        | some bundle ↦ elim inputs.arbitration_decision [
          | none ↦ "Selected from raw signal"
          | some decision ↦ "Selected from ranked signal"
        ]
      ]

  -- The single-name results and the final weight of a candidate.
  unfoldable pub single_name_step :
      List (PortfolioConstraint F) → Signal F → List (ConstraintResult F) × ℤ
  single_name_step constraints signal = elim (constraint_by_type constraints single_name) [
    | none ↦ ([], base_weight_bps signal)
    | some constraint ↦
        let outcome =
          single_name_constraint_result float (result_id_of ids signal.signal_id) signal.signal_id
            (base_weight_bps signal) (pos 500) constraint in
        (outcome.0 ∷ [], outcome.1)
  ]

  -- All results of a candidate, before those that share an identifier are merged.
  unfoldable pub candidate_results :
      List PositionIdea
      → List (PortfolioConstraint F)
      → CandidateContext F
      → List (ConstraintResult F)
  candidate_results current constraints c =
      (single_name_step constraints c.signal).0
      ++ project_portfolio_constraint_results float (result_id_of ids c.signal.signal_id) current
          c.signal.signal_id c.side (single_name_step constraints c.signal).1 constraints

  unfoldable pub position_idea_id_of : Signal F → String
  unfolding stance_value
  position_idea_id_of signal =
      ids.make_id "idea" (signal.signal_id ∷ stance_value signal.stance ∷ ids.as_of_text ∷ [])

  abbrev pub symbol_of : Option String → String
  symbol_of none = "UNKNOWN"
  symbol_of (some ticker) = ticker

  -- The position idea of a surviving candidate, at its final weight.
  unfoldable pub position_idea_of : CandidateContext F → ℤ → ℕ → PositionIdea
  unfolding selection_reason position_idea_id_of decision_id_of
  position_idea_of c final_weight_bps now = record {
    position_idea_id = position_idea_id_of c.signal;
    signal_id = c.signal.signal_id;
    symbol = symbol_of inputs.company_ticker;
    side = c.side;
    selection_reason = selection_reason c.signal;
    proposed_weight_bps = final_weight_bps;
    max_weight_bps = pos 500;
    evidence_span_ids = c.evidence_span_ids;
    supporting_evidence_link_ids = c.supporting_evidence_link_ids;
    research_artifact_ids = c.research_artifact_ids;
    review_decision_ids = [];
    construction_decision_id = some (decision_id_of ids c.signal.signal_id);
    position_sizing_rationale_id = some (ids.make_id "psize" (position_idea_id_of c.signal ∷ []));
    status = PositionIdeaStatus.pending_review;
    updated_at = now;
  }

  unfoldable pub rationale_of :
      CandidateContext F → ℤ → List (ConstraintResult F) → PositionSizingRationale
  unfolding position_idea_id_of sorted_set
  rationale_of c final_weight_bps results = record {
    position_sizing_rationale_id = ids.make_id "psize" (position_idea_id_of c.signal ∷ []);
    position_idea_id = position_idea_id_of c.signal;
    signal_id = c.signal.signal_id;
    base_weight_bps = base_weight_bps c.signal;
    final_weight_bps = final_weight_bps;
    max_weight_bps = pos 500;
    binding_constraint_ids = sorted_set (
        map (λ result. result.portfolio_constraint_id) (filter (λ result. result.binding) results));
  }

  unfoldable pub included_decision :
      CandidateContext F → List (ConstraintResult F) → ConstructionDecision
  unfolding position_idea_id_of decision_id_of
  included_decision c results = record {
    construction_decision_id = decision_id_of ids c.signal.signal_id;
    signal_id = c.signal.signal_id;
    decision_outcome = included;
    position_idea_id = some (position_idea_id_of c.signal);
    position_sizing_rationale_id = some (ids.make_id "psize" (position_idea_id_of c.signal ∷ []));
    constraint_result_ids = map (λ result. result.constraint_result_id) results;
    proposal_rejection_reasons = [];
  }

  -- The rejection of a candidate with failing results, one reason for each.
  unfoldable pub breach_decision :
      CandidateContext F
      → List (ConstraintResult F)
      → List (ConstraintResult F)
      → ConstructionDecision
  unfolding build_rejected_construction_decision
  breach_decision c failing results =
      build_rejected_construction_decision ids c.signal.signal_id
        (map
          (λ result. record {
            reason_code = portfolio_constraint_breach;
            blocking = true;
            related_constraint_ids = result.portfolio_constraint_id ∷ [];
            related_artifact_ids = result.constraint_result_id ∷ [];
          })
          failing)
        results

  -- The survivor: its idea and its rationale are validated as they are built.
  unfoldable pub accept :
      ℕ
      → CandidateContext F
      → ℤ
      → List (ConstraintResult F)
      → List (ConstraintResult F)
      → Result (Attempt F)
  accept now c final_weight_bps all_results results = do
    idea ← validate_position_idea (position_idea_of c final_weight_bps now)
    rationale ← validate_rationale (rationale_of c final_weight_bps all_results)
    ok (
        accepted (record {
          candidate = c;
          position_idea = idea;
          rationale = rationale;
          decision = included_decision c results;
          results = results;
        }))

  -- One round of the construction loop.
  unfoldable pub attempt :
      ℕ → List PositionIdea → List (PortfolioConstraint F) → CandidateContext F → Result (Attempt F)
  attempt now current constraints c =
      let all_results = candidate_results current constraints c in
      let results = dict_values (λ result. result.constraint_result_id) all_results in
      let failing = filter (λ result. is_fail result.status) results in
      if is_empty failing
      then accept now c (single_name_step constraints c.signal).1 all_results results
      else ok (breached results (breach_decision c failing results))
