-- ===== src/Portfolio/Limits.antt =====
-- The hard limits of services/portfolio/construction.py: how one candidate is sized and checked, and
-- how the finished proposal is measured.
pub mod Within
use ai_native_hedge_fund_ch.Prelude.{
  String, Bool, true, false, Option, none, some, List, [], ◌∷◌, ◌++◌, not, ◌&&◌, ◌||◌, find, map,
  if◌then◌else◌,
}
use ai_native_hedge_fund_ch.Prelude.Int.{ℤ, pos, ◌+ℤ◌, ◌-ℤ◌, ltb_ℤ, eqb_ℤ, abs_ℤ, min_ℤ, max_ℤ}
use ai_native_hedge_fund_ch.PyFloat.{Float}
use ai_native_hedge_fund_ch.Schemas.Enums.{
  ConstraintType, RiskCheckStatus, PositionSide, pass, warn, fail, is_long, is_short, same_type,
  gross_exposure, net_exposure, single_name, turnover,
}
use ai_native_hedge_fund_ch.Schemas.Portfolio.{PortfolioConstraint, PositionIdea}
use ai_native_hedge_fund_ch.Portfolio.Exposure.{weight_on}

pub record ConstraintResult (F : Type 0) : Type 0 where
  pub constraint_result_id : String
  pub subject_type : String
  pub subject_id : String
  pub portfolio_constraint_id : String
  pub status : RiskCheckStatus
  pub binding : Bool
  pub observed_value : F
  pub limit_value : F
  pub headroom_value : F

-- The figures that a portfolio-level limit is compared with, by its type.
pub record Exposures : Type 0 where
  pub gross : ℤ
  pub net : ℤ
  pub max_single_name : ℤ

-- `_constraint_by_type`: the first active constraint of the type.
unfoldable pub constraint_by_type :
    {F : Type 0} → List (PortfolioConstraint F) → ConstraintType → Option (PortfolioConstraint F)
constraint_by_type constraints constraint_type =
    find (λ c. c.active && same_type c.constraint_type constraint_type) constraints

-- The keys of `metrics` in `_project_portfolio_constraint_results`.
unfoldable pub projected_metric : Exposures → ConstraintType → Option ℤ
projected_metric e gross_exposure = some e.gross
projected_metric e net_exposure = some (abs_ℤ e.net)
projected_metric e turnover = some e.gross
projected_metric e _ = none

-- The keys of `metrics` in `_final_portfolio_constraint_results`.
unfoldable pub final_metric : Exposures → ConstraintType → Option ℤ
final_metric e single_name = some e.max_single_name
final_metric e gross_exposure = some e.gross
final_metric e net_exposure = some (abs_ℤ e.net)
final_metric e turnover = some e.gross
final_metric e _ = none

max_weight_from : ℤ → List PositionIdea → ℤ
max_weight_from best [] = best
max_weight_from best (other ∷ others) =
    max_weight_from (max_ℤ best other.proposed_weight_bps) others

-- `max((idea.proposed_weight_bps for idea in ideas), default=0)`
unfoldable pub max_weight : List PositionIdea → ℤ
unfolding max_weight_from
max_weight [] = pos 0
max_weight (idea ∷ rest) = max_weight_from idea.proposed_weight_bps rest

module _ {F : Type 0} (float : Float F) where
  -- `int(constraint.hard_limit or max_weight_bps)`: no limit and a limit of zero are both replaced.
  unfoldable pub whole_limit : Option F → ℤ → ℤ
  whole_limit none max_weight_bps = max_weight_bps
  whole_limit (some limit) max_weight_bps =
      if float.is_zero limit then max_weight_bps else float.trunc limit

  -- The final weight of `_single_name_constraint_result`.
  unfoldable pub capped_weight : ℤ → ℤ → Option F → ℤ
  unfolding whole_limit
  capped_weight base_weight_bps max_weight_bps hard_limit =
      min_ℤ (min_ℤ base_weight_bps (whole_limit hard_limit max_weight_bps)) max_weight_bps

  -- `_single_name_constraint_result`; `result_id` is the identifier it derives.
  unfoldable pub single_name_constraint_result :
      (String → String) → String → ℤ → ℤ → PortfolioConstraint F → ConstraintResult F × ℤ
  unfolding capped_weight
  single_name_constraint_result result_id subject_id base_weight_bps max_weight_bps constraint =
      let hard_limit = whole_limit constraint.hard_limit max_weight_bps in
      let final_weight_bps = capped_weight base_weight_bps max_weight_bps constraint.hard_limit in
      let binding = ltb_ℤ final_weight_bps base_weight_bps || eqb_ℤ final_weight_bps hard_limit in
      (
        record {
          constraint_result_id = result_id constraint.portfolio_constraint_id;
          subject_type = "candidate_signal";
          subject_id = subject_id;
          portfolio_constraint_id = constraint.portfolio_constraint_id;
          status = if binding then warn else pass;
          binding = binding;
          observed_value = float.of_int base_weight_bps;
          limit_value = float.of_int hard_limit;
          headroom_value = float.of_int (max_ℤ (hard_limit -ℤ final_weight_bps) (pos 0));
        },
        final_weight_bps,
      )

  -- The outcome of `observed_value` against a hard limit, for a candidate.
  unfoldable pub projected_status : F → F → RiskCheckStatus × Bool
  projected_status observed limit =
      if float.gt observed limit
      then (fail, true)
      else if float.eq observed limit
      then (warn, true)
      else (pass, false)

  -- The same for the finished proposal: an empty proposal at a limit of zero is no warning.
  unfoldable pub final_status : F → F → RiskCheckStatus × Bool
  final_status observed limit =
      if float.gt observed limit
      then (fail, true)
      else if float.eq observed limit && float.gt observed (float.of_int (pos 0))
      then (warn, true)
      else (pass, false)

  -- One pass of the loop over the constraints, shared by the two functions below: whether the
  -- constraint is active, its metric if there is one, and its hard limit.
  unfoldable pub constraint_row :
      (F → F → RiskCheckStatus × Bool)
      → String
      → String
      → String
      → String
      → Bool
      → Option ℤ
      → Option F
      → List (ConstraintResult F)
  constraint_row status_of result_id subject_type subject_id constraint_id true (some observed)
        (some limit) =
      let outcome = status_of (float.of_int observed) limit in
      record {
        constraint_result_id = result_id;
        subject_type = subject_type;
        subject_id = subject_id;
        portfolio_constraint_id = constraint_id;
        status = outcome.0;
        binding = outcome.1;
        observed_value = float.of_int observed;
        limit_value = limit;
        headroom_value = float.minus limit (float.of_int observed);
      }
      ∷ []
  constraint_row status_of result_id subject_type subject_id constraint_id _ _ _ = []

  -- The loop over the constraints.
  unfoldable pub constraint_results :
      (F → F → RiskCheckStatus × Bool)
      → (ConstraintType → Option ℤ)
      → (String → String)
      → String
      → String
      → List (PortfolioConstraint F)
      → List (ConstraintResult F)
  unfolding constraint_row
  constraint_results status_of metric result_id subject_type subject_id [] = []
  constraint_results status_of metric result_id subject_type subject_id (c ∷ rest) =
      constraint_row status_of (result_id c.portfolio_constraint_id) subject_type subject_id
        c.portfolio_constraint_id c.active (metric c.constraint_type) c.hard_limit
      ++ constraint_results status_of metric result_id subject_type subject_id rest

-- The exposures after one more idea of the given side and weight.
unfoldable pub projected_exposures : List PositionIdea → PositionSide → ℤ → Exposures
projected_exposures current side final_weight_bps =
    let projected_long =
      weight_on is_long current +ℤ (if is_long side then final_weight_bps else pos 0) in
    let projected_short =
      weight_on is_short current +ℤ (if is_short side then final_weight_bps else pos 0) in
    record {
      gross = projected_long +ℤ projected_short;
      net = projected_long -ℤ projected_short;
      max_single_name = pos 0;
    }

-- The exposures of the finished proposal.
unfoldable pub final_exposures : List PositionIdea → Exposures
final_exposures ideas = record {
  gross = weight_on is_long ideas +ℤ weight_on is_short ideas;
  net = weight_on is_long ideas -ℤ weight_on is_short ideas;
  max_single_name = max_weight ideas;
}

module _ {F : Type 0} (float : Float F) where
  -- `_project_portfolio_constraint_results`
  unfoldable pub project_portfolio_constraint_results :
      (String → String)
      → List PositionIdea
      → String
      → PositionSide
      → ℤ
      → List (PortfolioConstraint F)
      → List (ConstraintResult F)
  project_portfolio_constraint_results result_id current signal_id side final_weight_bps =
      constraint_results float (projected_status float)
        (projected_metric (projected_exposures current side final_weight_bps)) result_id
        "candidate_signal" signal_id

  -- `_final_portfolio_constraint_results`
  unfoldable pub final_portfolio_constraint_results :
      (String → String)
      → String
      → List PositionIdea
      → List (PortfolioConstraint F)
      → List (ConstraintResult F)
  final_portfolio_constraint_results result_id proposal_id ideas =
      constraint_results float (final_status float) (final_metric (final_exposures ideas)) result_id
        "portfolio_proposal" proposal_id
