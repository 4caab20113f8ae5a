-- ===== src/Portfolio/Selection.antt =====
-- `build_portfolio_selection` of services/portfolio/construction.py.
pub mod Survivor
pub mod Safety
pub mod Weight
pub mod Complete
use ai_native_hedge_fund_ch.Prelude.{
  ℕ, String, Bool, true, false, Option, none, some, List, [], ◌∷◌, ◌++◌, ◌&&◌, map, filter, not,
  is_some, length, ltb, str_eq, dict_values, sorted_set, Result, ok, err, ◌>>=◌, if◌then◌else◌,
}
use ai_native_hedge_fund_ch.PyFloat.{Float}
use ai_native_hedge_fund_ch.Schemas.Portfolio.{PortfolioConstraint, PositionIdea}
use ai_native_hedge_fund_ch.Portfolio.Inputs.{Signal, LoadedPortfolioInputs, withholds_primary}
use ai_native_hedge_fund_ch.Portfolio.Limits.{ConstraintResult, final_portfolio_constraint_results}
use ai_native_hedge_fund_ch.Portfolio.Decisions.{
  Identity, ConstructionDecision, unresolved_opposing_tie, higher_priority_conflict_unresolved,
  lower_ranked_same_company_candidate, is_rejected, result_id_of,
  build_rejected_construction_decision,
}
use ai_native_hedge_fund_ch.Portfolio.Intake.{
  CandidateContext, intake_rejections, intake_candidates,
}
use ai_native_hedge_fund_ch.Portfolio.Ranking.{same_rank, rank, top_tied, is_opposing_tie}
use ai_native_hedge_fund_ch.Portfolio.Sizing.{
  PositionSizingRationale, Selected, Attempt, breached, accepted, attempt,
}

pub record SelectionConflict : Type 0 where
  pub selection_conflict_id : String
  pub conflict_kind : String
  pub candidate_signal_ids : List String
  pub resolved_in_favor_of_signal_id : Option String

-- What the construction has recorded so far.
pub record Progress (F : Type 0) : Type 0 where
  pub constraint_results : List (ConstraintResult F)
  pub rationales : List PositionSizingRationale
  pub decisions : List ConstructionDecision
  pub conflicts : List SelectionConflict
  pub position_ideas : List PositionIdea

pub record PortfolioSelectionSummary : Type 0 where
  pub construction_decision_ids : List String
  pub candidate_signal_ids : List String
  pub included_signal_ids : List String
  pub included_position_idea_ids : List String
  pub rejected_signal_ids : List String
  pub binding_constraint_ids : List String

pub record PortfolioSelectionBuildResult (F : Type 0) : Type 0 where
  pub constraint_results : List (ConstraintResult F)
  pub position_sizing_rationales : List PositionSizingRationale
  pub construction_decisions : List ConstructionDecision
  pub selection_conflicts : List SelectionConflict
  pub summary : PortfolioSelectionSummary
  pub position_ideas : List PositionIdea

-- What the loop over the ranked candidates leaves behind.
pub record LoopOutcome (F : Type 0) : Type 0 where
  pub constraint_results : List (ConstraintResult F)
  pub decisions : List ConstructionDecision
  pub selected : Option (Selected F)

-- `break` after a survivor; `continue` after a breach, with its results and its rejection recorded.
unfoldable pub after_round :
    {F : Type 0} → Attempt F → Result (LoopOutcome F) → Result (LoopOutcome F)
after_round (accepted chosen) later =
    ok (record { constraint_results = []; decisions = []; selected = some chosen })
after_round (breached results decision) later = do
  others ← later
  ok (record {
    constraint_results = results ++ others.constraint_results;
    decisions = decision ∷ others.decisions;
    selected = others.selected;
  })

module _ {F : Type 0} (float : Float F) (inputs : LoadedPortfolioInputs F) (ids : Identity) where
  -- The loop over the ranked candidates, which stops at the first survivor.
  unfoldable pub select_first :
      ℕ → List (PortfolioConstraint F) → List (CandidateContext F) → Result (LoopOutcome F)
  select_first now constraints [] =
      ok (record { constraint_results = []; decisions = []; selected = none })
  select_first now constraints (c ∷ rest) = do
    outcome ← attempt float inputs ids now [] constraints c
    let later = select_first now constraints rest
    after_round outcome later

  conflict_id_of : String → String
  conflict_id_of kind = ids.make_id "sconflict" (ids.summary_id ∷ kind ∷ [])

  abbrev pub signal_ids_of : List (CandidateContext F) → List String
  signal_ids_of candidates = map (λ c. c.signal.signal_id) candidates

  -- The branch of an unresolved tie: one conflict, and a rejection for every candidate.
  unfoldable pub reject_all : CandidateContext F → List (CandidateContext F) → Progress F
  unfolding conflict_id_of
  reject_all top ranked = record {
    constraint_results = [];
    rationales = [];
    decisions =
        map
          (λ c.
            build_rejected_construction_decision ids {F = F} c.signal.signal_id
              (record {
                reason_code =
                    if same_rank float inputs c.signal top.signal
                    then unresolved_opposing_tie
                    else higher_priority_conflict_unresolved;
                blocking = true;
                related_constraint_ids = [];
                related_artifact_ids = conflict_id_of "unresolved_opposing_tie" ∷ [];
              }
                ∷ [])
              [])
          ranked;
    conflicts =
        record {
          selection_conflict_id = conflict_id_of "unresolved_opposing_tie";
          conflict_kind = "unresolved_opposing_tie";
          candidate_signal_ids = signal_ids_of (top_tied float inputs top ranked);
          resolved_in_favor_of_signal_id = none;
        }
        ∷ [];
    position_ideas = [];
  }

  -- The rejections of every other candidate, once one has survived.
  unfoldable pub losing_decisions : String → List (CandidateContext F) → List ConstructionDecision
  unfolding conflict_id_of build_rejected_construction_decision
  losing_decisions winner ranked =
      map
        (λ c.
          build_rejected_construction_decision ids {F = F} c.signal.signal_id
            (record {
              reason_code = lower_ranked_same_company_candidate;
              blocking = false;
              related_constraint_ids = [];
              related_artifact_ids =
                  conflict_id_of "same_company_candidate_competition" ∷ winner ∷ [];
            }
              ∷ [])
            [])
        (filter (λ c. not (str_eq c.signal.signal_id winner)) ranked)

  competition : String → List (CandidateContext F) → List SelectionConflict
  unfolding conflict_id_of
  competition winner ranked =
      record {
        selection_conflict_id = conflict_id_of "same_company_candidate_competition";
        conflict_kind = "same_company_candidate_competition";
        candidate_signal_ids = signal_ids_of ranked;
        resolved_in_favor_of_signal_id = some winner;
      }
      ∷ []

  -- What the loop's outcome adds to the record.
  unfoldable pub record_outcome : List (CandidateContext F) → LoopOutcome F → Progress F
  unfolding losing_decisions competition
  record_outcome ranked outcome = elim outcome.selected [
    | none ↦ record {
      constraint_results = outcome.constraint_results;
      rationales = [];
      decisions = outcome.decisions;
      conflicts = [];
      position_ideas = [];
    }
    | some chosen ↦
        let winner = chosen.candidate.signal.signal_id in
        let contested = ltb 1 (length ranked) in
        record {
          constraint_results = outcome.constraint_results ++ chosen.results;
          rationales = chosen.rationale ∷ [];
          decisions =
              outcome.decisions
              ++ chosen.decision ∷ (if contested then losing_decisions winner ranked else []);
          conflicts = if contested then competition winner ranked else [];
          position_ideas = chosen.position_idea ∷ [];
        }
  ]

  -- The competition between the ranked candidates.
  unfoldable pub compete :
      ℕ → List (PortfolioConstraint F) → List (CandidateContext F) → Result (Progress F)
  compete now constraints [] = ok (record {
    constraint_results = [];
    rationales = [];
    decisions = [];
    conflicts = [];
    position_ideas = [];
  })
  compete now constraints (top ∷ rest) =
      if is_opposing_tie float inputs top (top ∷ rest) then ok (reject_all top (top ∷ rest)) else do
        outcome ← select_first now constraints (top ∷ rest)
        ok (record_outcome (top ∷ rest) outcome)

  -- The summary and the final results, from what the competition recorded.
  unfoldable pub assemble :
      List (PortfolioConstraint F) → Progress F → PortfolioSelectionBuildResult F
  assemble constraints progress =
      let final_results =
        final_portfolio_constraint_results float (result_id_of ids ids.proposal_id) ids.proposal_id
          progress.position_ideas constraints in
      let results = progress.constraint_results ++ final_results in
      let decisions =
        dict_values (λ d. d.construction_decision_id)
          (intake_rejections inputs ids inputs.signals ++ progress.decisions) in
      record {
        constraint_results = results;
        position_sizing_rationales = progress.rationales;
        construction_decisions = decisions;
        selection_conflicts = progress.conflicts;
        summary = record {
          construction_decision_ids = map (λ d. d.construction_decision_id) decisions;
          candidate_signal_ids = map (λ s. s.signal_id) inputs.signals;
          included_signal_ids = map (λ idea. idea.signal_id) progress.position_ideas;
          included_position_idea_ids = map (λ idea. idea.position_idea_id) progress.position_ideas;
          rejected_signal_ids =
              map (λ d. d.signal_id) (filter (λ d. is_rejected d.decision_outcome) decisions);
          binding_constraint_ids =
              sorted_set (map (λ r. r.portfolio_constraint_id) (filter (λ r. r.binding) results));
        };
        position_ideas = progress.position_ideas;
      }

  abbrev withheld_result : PortfolioSelectionBuildResult F
  withheld_result = record {
    constraint_results = [];
    position_sizing_rationales = [];
    construction_decisions = [];
    selection_conflicts = [];
    summary = record {
      construction_decision_ids = [];
      candidate_signal_ids = [];
      included_signal_ids = [];
      included_position_idea_ids = [];
      rejected_signal_ids = [];
      binding_constraint_ids = [];
    };
    position_ideas = [];
  }

  -- The ranking that the competition runs on.
  unfoldable pub ranked_candidates : List (CandidateContext F)
  unfolding rank intake_candidates
  ranked_candidates = rank float inputs (intake_candidates inputs inputs.signals)

  unfoldable pub build_portfolio_selection :
      ℕ → List (PortfolioConstraint F) → Result (PortfolioSelectionBuildResult F)
  build_portfolio_selection now constraints =
      if is_some inputs.signal_bundle_id && withholds_primary inputs.arbitration_decision
      then ok withheld_result
      else do
        progress ← compete now constraints ranked_candidates
        ok (assemble constraints progress)
