-- ===== src/Portfolio/Exposure.antt =====
-- `build_exposure_summary` of services/portfolio/construction.py.
use mathlib.Core.List.{foldl}
use ai_native_hedge_fund_ch.Prelude.{List, Bool, length, filter, Result}
use ai_native_hedge_fund_ch.Prelude.Int.{ℤ, pos, ◌+ℤ◌, ◌-ℤ◌, max_ℤ}
use ai_native_hedge_fund_ch.Schemas.Enums.{PositionSide, is_long, is_short}
use ai_native_hedge_fund_ch.Schemas.Portfolio.{
  PositionIdea, PortfolioExposureSummary, validate_exposures,
}

-- `sum(idea.proposed_weight_bps for idea in ideas if test(idea.side))`, from 0 on the left.
unfoldable pub weight_on : (PositionSide → Bool) → List PositionIdea → ℤ
weight_on test ideas =
    foldl (λ total idea. total +ℤ idea.proposed_weight_bps) (pos 0)
      (filter (λ idea. test idea.side) ideas)

-- The figures of the summary, before its validators run.
unfoldable pub exposure_figures : List PositionIdea → PortfolioExposureSummary
exposure_figures ideas =
    let long_exposure = weight_on is_long ideas in
    let short_exposure = weight_on is_short ideas in
    let gross_exposure = long_exposure +ℤ short_exposure in
    record {
      gross_exposure_bps = gross_exposure;
      net_exposure_bps = long_exposure -ℤ short_exposure;
      long_exposure_bps = long_exposure;
      short_exposure_bps = short_exposure;
      cash_buffer_bps = max_ℤ (pos 0) (pos 10000 -ℤ gross_exposure);
      position_count = length ideas;
      turnover_bps_assumption = gross_exposure;
    }

unfoldable pub build_exposure_summary : List PositionIdea → Result PortfolioExposureSummary
unfolding exposure_figures validate_exposures
build_exposure_summary ideas = validate_exposures (exposure_figures ideas)
