-- ===== src/Schemas/Portfolio.antt =====
-- The records of libraries/schemas/portfolio.py, with the fields that the modelled code reads or
-- writes. Messages, free-text notes, clocks and provenance are left out.
use ai_native_hedge_fund_ch.Prelude.{
  ℕ, String, Bool, Option, List, not, ◌&&◌, length, any, is_empty, is_some, truthy, ◌==◌, Result,
  ok, raise_if, ◌>>◌, none, some, true, false, ltb,
}
use ai_native_hedge_fund_ch.PyFloat.{Float}
use ai_native_hedge_fund_ch.Prelude.Int.{ℤ, pos, ◌+ℤ◌, ◌-ℤ◌, ltb_ℤ, eqb_ℤ, abs_ℤ}
use ai_native_hedge_fund_ch.Schemas.Enums.{
  ConstraintType, RiskCheckStatus, Severity, PositionSide, PositionIdeaStatus,
  PortfolioProposalStatus, PaperTradeStatus, is_flat, is_pass, approved, simulated,
}

pub record PortfolioConstraint (F : Type 0) : Type 0 where
  pub portfolio_constraint_id : String
  pub constraint_type : ConstraintType
  pub hard_limit : Option F
  pub unit : String
  pub active : Bool

pub record PositionIdea : Type 0 where
  pub position_idea_id : String
  pub signal_id : String
  pub symbol : String
  pub side : PositionSide
  pub selection_reason : String
  pub proposed_weight_bps : ℤ
  pub max_weight_bps : ℤ
  pub evidence_span_ids : List String
  pub supporting_evidence_link_ids : List String
  pub research_artifact_ids : List String
  pub review_decision_ids : List String
  pub construction_decision_id : Option String
  pub position_sizing_rationale_id : Option String
  pub status : PositionIdeaStatus
  pub updated_at : ℕ

-- `PositionIdea.validate_weight_limits`
unfoldable pub validate_position_idea : PositionIdea → Result PositionIdea
validate_position_idea idea = do
  raise_if (not (truthy idea.signal_id)) "signal_id must be non-empty."
  raise_if (not (truthy idea.selection_reason)) "selection_reason must be non-empty."
  raise_if (is_empty idea.evidence_span_ids)
      "evidence_span_ids must contain at least one evidence span."
  raise_if (is_empty idea.supporting_evidence_link_ids)
      "supporting_evidence_link_ids must contain at least one evidence link."
  raise_if (is_empty idea.research_artifact_ids)
      "research_artifact_ids must contain at least one artifact identifier."
  raise_if (not (ltb_ℤ (pos 0) idea.max_weight_bps)) "max_weight_bps must be greater than zero."
  raise_if (ltb_ℤ idea.max_weight_bps (abs_ℤ idea.proposed_weight_bps))
      "proposed_weight_bps must not exceed max_weight_bps in absolute value."
  raise_if (is_flat idea.side && not (eqb_ℤ idea.proposed_weight_bps (pos 0)))
      "Flat position ideas must have zero proposed weight."
  raise_if (not (is_flat idea.side) && not (ltb_ℤ (pos 0) idea.proposed_weight_bps))
      "Non-flat position ideas must have a positive proposed_weight_bps."
  ok idea

pub record PortfolioExposureSummary : Type 0 where
  pub gross_exposure_bps : ℤ
  pub net_exposure_bps : ℤ
  pub long_exposure_bps : ℤ
  pub short_exposure_bps : ℤ
  pub cash_buffer_bps : ℤ
  pub position_count : ℕ
  pub turnover_bps_assumption : ℤ

-- The field bounds of `PortfolioExposureSummary`, then `validate_exposures`.
unfoldable pub validate_exposures : PortfolioExposureSummary → Result PortfolioExposureSummary
validate_exposures s = do
  raise_if (ltb_ℤ s.long_exposure_bps (pos 0)) "long_exposure_bps must be at least zero."
  raise_if (ltb_ℤ s.short_exposure_bps (pos 0)) "short_exposure_bps must be at least zero."
  raise_if (ltb_ℤ s.cash_buffer_bps (pos 0)) "cash_buffer_bps must be at least zero."
  raise_if (ltb_ℤ s.turnover_bps_assumption (pos 0)) "turnover must be at least zero."
  raise_if (not (eqb_ℤ s.gross_exposure_bps (s.long_exposure_bps +ℤ s.short_exposure_bps)))
      "gross_exposure_bps must equal long_exposure_bps + short_exposure_bps."
  raise_if (not (eqb_ℤ s.net_exposure_bps (s.long_exposure_bps -ℤ s.short_exposure_bps)))
      "net_exposure_bps must equal long_exposure_bps - short_exposure_bps."
  raise_if (ltb_ℤ s.gross_exposure_bps (abs_ℤ s.net_exposure_bps))
      "gross_exposure_bps must be at least the absolute net exposure."
  ok s

pub record RiskCheck (F : Type 0) : Type 0 where
  pub subject_type : String
  pub subject_id : String
  pub portfolio_constraint_id : Option String
  pub rule_name : String
  pub status : RiskCheckStatus
  pub severity : Severity
  pub blocking : Bool
  pub observed_value : Option F
  pub limit_value : Option F
  pub unit : Option String
  pub message : String

-- `RiskCheck.validate_check`
unfoldable pub validate_check : {F : Type 0} → RiskCheck F → Result (RiskCheck F)
validate_check c = do
  raise_if (c.blocking && is_pass c.status) "Blocking risk checks cannot have PASS status."
  raise_if (is_some c.observed_value && not (is_some c.limit_value))
      "observed_value and limit_value must be provided together."
  raise_if (not (is_some c.observed_value) && is_some c.limit_value)
      "observed_value and limit_value must be provided together."
  raise_if (is_some c.observed_value && not (is_some c.unit))
      "unit is required when numeric observed/limit values are supplied."
  raise_if (not (truthy c.message)) "message must be non-empty."
  ok c

pub record PortfolioProposal (F : Type 0) : Type 0 where
  pub portfolio_proposal_id : String
  pub target_nav_usd : F
  pub position_ideas : List PositionIdea
  pub constraints : List (PortfolioConstraint F)
  pub risk_checks : List (RiskCheck F)
  pub exposure_summary : PortfolioExposureSummary
  pub blocking_issues : List String
  pub review_decision_ids : List String
  pub portfolio_selection_summary_id : Option String
  pub status : PortfolioProposalStatus
  pub updated_at : ℕ

-- The field bound of `PortfolioProposal`, then its validator on counts and blocking checks. The text
-- of the summary is left out.
unfoldable pub validate_proposal :
    {F : Type 0} → Float F → PortfolioProposal F → Result (PortfolioProposal F)
validate_proposal float p = do
  raise_if (not (float.gt p.target_nav_usd (float.of_int (pos 0))))
      "target_nav_usd must be greater than 0."
  raise_if (not (p.exposure_summary.position_count == length p.position_ideas))
      "exposure_summary.position_count must match len(position_ideas)."
  raise_if (any (λ c. c.blocking) p.risk_checks && is_empty p.blocking_issues)
      "blocking_issues must be populated when blocking risk checks exist."
  ok p

pub record PaperTrade (F : Type 0) : Type 0 where
  pub paper_trade_id : String
  pub portfolio_proposal_id : String
  pub position_idea_id : String
  pub symbol : String
  pub side : PositionSide
  pub quantity : Option F
  pub notional_usd : F
  pub assumed_reference_price_usd : Option F
  pub status : PaperTradeStatus
  pub submitted_at : ℕ
  pub approved_at : Option ℕ
  pub simulated_fill_at : Option ℕ
  pub requested_by : String
  pub approved_by : Option String
  pub review_decision_ids : List String
  pub slippage_bps_estimate : Option F
  pub execution_timing_rule_id : Option String
  pub fill_assumption_id : Option String
  pub cost_model_id : Option String
  pub paper_position_state_id : Option String
  pub latest_trade_outcome_id : Option String
  pub updated_at : ℕ

abbrev not_positive : {F : Type 0} → Float F → Option F → Bool
not_positive float none = false
not_positive float (some x) = not (float.gt x (float.of_int (pos 0)))

abbrev is_before : Option ℕ → ℕ → Bool
is_before none start = false
is_before (some time) start = ltb time start

abbrev pub is_trade_approved : PaperTradeStatus → Bool
is_trade_approved approved = true
is_trade_approved _ = false

abbrev pub is_trade_simulated : PaperTradeStatus → Bool
is_trade_simulated simulated = true
is_trade_simulated _ = false

-- The field bounds of `PaperTrade`, then `validate_trade_timestamps`. The bound of the slippage
-- estimate is left out: `CostModel` holds it for the value that the realism bundle brings.
unfoldable pub validate_paper_trade : {F : Type 0} → Float F → PaperTrade F → Result (PaperTrade F)
validate_paper_trade float t = do
  raise_if (not_positive float t.quantity) "quantity must be greater than zero."
  raise_if (not_positive float (some t.notional_usd)) "notional_usd must be greater than zero."
  raise_if (not_positive float t.assumed_reference_price_usd)
      "assumed_reference_price_usd must be greater than zero."
  raise_if (is_flat t.side) "Paper trades must not use a flat side."
  raise_if (is_some t.quantity && not (is_some t.assumed_reference_price_usd))
      "assumed_reference_price_usd is required when quantity is materialized."
  raise_if (is_before t.approved_at t.submitted_at)
      "approved_at must be greater than or equal to submitted_at."
  raise_if (is_before t.simulated_fill_at t.submitted_at)
      "simulated_fill_at must be greater than or equal to submitted_at."
  raise_if (is_some t.approved_at && not (is_some t.approved_by))
      "approved_by is required when approved_at is provided."
  raise_if (is_trade_approved t.status && not (is_some t.approved_at))
      "approved_at is required when status is APPROVED."
  raise_if (is_trade_simulated t.status && not (is_some t.simulated_fill_at))
      "simulated_fill_at is required when status is SIMULATED."
  ok t
