-- ===== src/Risk/Checks.antt =====
-- `_build_risk_check`, and the blocking issues of a list of checks.
use ai_native_hedge_fund_ch.Prelude.{
  String, Bool, Option, ◌≡◌, ap, false, none, some, List, [], ◌∷◌, All, ok, filter, map, refl,
  Bool-cases, inl, inr,
}
use ai_native_hedge_fund_ch.Schemas.Enums.{RiskCheckStatus, Severity, is_fail}
use ai_native_hedge_fund_ch.Schemas.Portfolio.{RiskCheck, validate_check, PortfolioConstraint}

-- The optional arguments of `_build_risk_check`.
pub record Measurement (F : Type 0) : Type 0 where
  pub portfolio_constraint_id : Option String
  pub observed_value : Option F
  pub limit_value : Option F
  pub unit : Option String

module _ {F : Type 0} where
  -- Their default values.
  abbrev pub unmeasured : Measurement F
  unmeasured = record {
    portfolio_constraint_id = none;
    observed_value = none;
    limit_value = none;
    unit = none;
  }

  -- What is measured against the hard limit of a constraint.
  abbrev pub against_limit : PortfolioConstraint F → F → F → Measurement F
  against_limit constraint observed limit = record {
    portfolio_constraint_id = some constraint.portfolio_constraint_id;
    observed_value = some observed;
    limit_value = some limit;
    unit = some constraint.unit;
  }

  -- `_build_risk_check`
  unfoldable pub build_risk_check :
      String
      → String
      → String
      → RiskCheckStatus
      → Severity
      → Bool
      → String
      → Measurement F
      → RiskCheck F
  build_risk_check subject_type subject_id rule_name status severity blocking message m = record {
    subject_type = subject_type;
    subject_id = subject_id;
    portfolio_constraint_id = m.portfolio_constraint_id;
    rule_name = rule_name;
    status = status;
    severity = severity;
    blocking = blocking;
    observed_value = m.observed_value;
    limit_value = m.limit_value;
    unit = m.unit;
    message = message;
  }

  -- `[risk_check.message for risk_check in risk_checks if risk_check.blocking]`
  unfoldable pub blocking_issues : List (RiskCheck F) → List String
  blocking_issues checks = map (λ c. c.message) (filter (λ c. c.blocking) checks)

  -- A check blocks exactly if it has failed, and its validator accepts it.
  pub record IsCoherent (c : RiskCheck F) : Type 0 where
    pub blocks_on_fail : c.blocking ≡ is_fail c.status
    pub valid : validate_check c ≡ ok c

  -- No check of the list blocks.
  abbrev pub IsClear : List (RiskCheck F) → Type 0
  IsClear checks = All (λ c. c.blocking ≡ false) checks

  pub issues_of_IsClear :
      (checks : List (RiskCheck F)) → IsClear checks → blocking_issues checks ≡ []
  unfolding blocking_issues
  issues_of_IsClear [] h = refl
  issues_of_IsClear (c ∷ cs) h = rw h.0 (issues_of_IsClear cs h.1)

  pub IsClear-of_issues :
      (checks : List (RiskCheck F)) → blocking_issues checks ≡ [] → IsClear checks
  unfolding blocking_issues
  IsClear-of_issues [] h = tt
  IsClear-of_issues (c ∷ cs) h = elim (Bool-cases c.blocking) [
    | inl b ↦ absurd (cc (rw b at h))
    | inr b ↦ (b, IsClear-of_issues cs (rw b at h))
  ]

  -- Of coherent checks, the blocking issues are the messages of the failed ones.
  pub issues_of_failed :
      (checks : List (RiskCheck F))
      → All IsCoherent checks
      → blocking_issues checks ≡ map (λ c. c.message) (filter (λ c. is_fail c.status) checks)
  unfolding blocking_issues
  issues_of_failed [] h = refl
  issues_of_failed (c ∷ cs) h =
      let rest = issues_of_failed cs h.1 in
      elim (Bool-cases (is_fail c.status)) [
        | inl e ↦ rw (h.0.blocks_on_fail, e) (ap (λ l. c.message ∷ l) rest)
        | inr e ↦ rw (h.0.blocks_on_fail, e) rest
      ]
