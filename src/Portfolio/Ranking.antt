-- ===== src/Portfolio/Ranking.antt =====
-- How `build_portfolio_selection` ranks its candidates, and when the top of the ranking is tied.
use ai_native_hedge_fund_ch.Prelude.{
  ℕ, Bool, true, false, List, ◌&&◌, not, any, length, filter, ltb, ◌==◌, str_lt, if◌then◌else◌,
  sort_by, insert_by,
}
use ai_native_hedge_fund_ch.Prelude.Int.{ℤ, pos}
use ai_native_hedge_fund_ch.PyFloat.{Float}
use ai_native_hedge_fund_ch.Schemas.Enums.{SignalStatus, is_validated, same_stance}
use ai_native_hedge_fund_ch.Portfolio.Inputs.{Signal, LoadedPortfolioInputs, is_selected_primary}
use ai_native_hedge_fund_ch.Portfolio.Intake.{CandidateContext}

abbrev is_approved : SignalStatus → Bool
is_approved SignalStatus.approved = true
is_approved _ = false

module _ {F : Type 0} where
  -- `_candidate_priority`
  unfoldable pub candidate_priority : LoadedPortfolioInputs F → Signal F → ℕ
  candidate_priority inputs signal =
      if is_selected_primary inputs.arbitration_decision signal.signal_id then 1 else 0

  -- `_maturity_bucket`
  unfoldable pub maturity_bucket : Signal F → ℕ
  maturity_bucket signal =
      if is_approved signal.status && is_validated signal.validation_status
      then 4
      else if is_approved signal.status
      then 3
      else if is_validated signal.validation_status
      then 2
      else 1

  -- `_base_weight_bps`
  unfoldable pub base_weight_bps : Signal F → ℤ
  base_weight_bps signal =
      if is_approved signal.status && is_validated signal.validation_status
      then pos 500
      else pos 300

module _ {F : Type 0} (float : Float F) (inputs : LoadedPortfolioInputs F) where
  -- Equality of two `_substantive_rank_key`s.
  unfoldable pub same_rank : Signal F → Signal F → Bool
  unfolding candidate_priority maturity_bucket
  same_rank a b =
      candidate_priority inputs a == candidate_priority inputs b
      && (maturity_bucket a == maturity_bucket b
          && (float.eq (float.magnitude a.primary_score) (float.magnitude b.primary_score)
              && a.effective_at == b.effective_at))

  -- `key(a) < key(b)` on the sort keys, as Python compares tuples: the first place that differs.
  unfoldable pub ranks_below : Signal F → Signal F → Bool
  unfolding candidate_priority maturity_bucket
  ranks_below a b =
      if not (candidate_priority inputs a == candidate_priority inputs b)
      then ltb (candidate_priority inputs a) (candidate_priority inputs b)
      else if not (maturity_bucket a == maturity_bucket b)
      then ltb (maturity_bucket a) (maturity_bucket b)
      else if not (float.eq (float.magnitude a.primary_score) (float.magnitude b.primary_score))
      then float.gt (float.magnitude b.primary_score) (float.magnitude a.primary_score)
      else if not (a.effective_at == b.effective_at)
      then ltb a.effective_at b.effective_at
      else str_lt a.signal_id b.signal_id

  -- `ranked_candidates.sort(key=..., reverse=True)`
  unfoldable pub rank : List (CandidateContext F) → List (CandidateContext F)
  unfolding sort_by insert_by ranks_below
  rank candidates = sort_by (λ d c. ranks_below c.signal d.signal) candidates

  -- `top_tied_candidates`, for a ranking that begins with `top`.
  unfoldable pub top_tied :
      CandidateContext F → List (CandidateContext F) → List (CandidateContext F)
  unfolding same_rank
  top_tied top ranked = filter (λ c. same_rank c.signal top.signal) ranked

  -- More than one candidate is tied at the top, and their stances differ.
  unfoldable pub is_opposing_tie : CandidateContext F → List (CandidateContext F) → Bool
  unfolding top_tied same_stance
  is_opposing_tie top ranked =
      ltb 1 (length (top_tied top ranked))
      && any (λ c. not (same_stance c.signal.stance top.signal.stance)) (top_tied top ranked)
