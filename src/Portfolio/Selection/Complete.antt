-- ===== src/Portfolio/Selection/Complete.antt =====
-- Every signal that the construction looks at is decided on.
pub mod TakenIn
pub mod Looped
use mathlib.Core.List.{foldr}
use ai_native_hedge_fund_ch.Prelude.{
  Bool, true, none, some, List, ◌⊎◌, length, ltb, is_empty, arith, str_eq_refl, dict_values, Result,
  err,
}
use ai_native_hedge_fund_ch.Schemas.Enums.{is_fail}
use ai_native_hedge_fund_ch.Schemas.Portfolio.{validate_position_idea}
use ai_native_hedge_fund_ch.Portfolio.Limits.{ConstraintResult}
use ai_native_hedge_fund_ch.Portfolio.Decisions.{ConstructionDecision}
use ai_native_hedge_fund_ch.Portfolio.Intake.{
  Screening, excluded, eligible, screen, candidate_context,
}
use ai_native_hedge_fund_ch.Portfolio.Ranking.{ranks_below, rank}
use ai_native_hedge_fund_ch.Portfolio.Sizing.{
  Selected, Attempt, breached, accepted, validate_rationale, candidate_results, single_name_step,
  position_idea_of, rationale_of, included_decision, breach_decision, accept, attempt,
}
use ai_native_hedge_fund_ch.Portfolio.Selection.{after_round}
