-- ===== src/Risk/Review/Coherent.antt =====
-- Every check of the review is well formed.
use ai_native_hedge_fund_ch.Prelude.{
  ◌≡◌, refl, Bool, true, false, Option, none, some, List, [], ◌∷◌, ◌++◌, All, All-append,
  Option-cases, inl, inr, String, map, filter, is_some, arith, truthy, if◌then◌else◌,
}
use ai_native_hedge_fund_ch.Prelude.Int.{ℤ}
use ai_native_hedge_fund_ch.PyFloat.{Float}
use ai_native_hedge_fund_ch.Schemas.Enums.{RiskCheckStatus, Severity, EvidenceGrade, is_fail}
use ai_native_hedge_fund_ch.Schemas.Portfolio.{
  PortfolioConstraint, PortfolioProposal, PositionIdea, RiskCheck, validate_check,
}
use ai_native_hedge_fund_ch.Portfolio.Inputs.{Signal, EvidenceAssessment}
use ai_native_hedge_fund_ch.Risk.Checks.{
  Measurement, build_risk_check, IsCoherent, issues_of_failed,
}
use ai_native_hedge_fund_ch.Risk.Ideas.{
  ReviewData, completeness_checks, signal_checks, grade_checks, evidence_checks, evidence_of_idea,
  single_name_checks, idea_checks, all_idea_checks,
}
use ai_native_hedge_fund_ch.Risk.Proposal.{
  ReviewContext, construction_context_checks, arbitration_checks, analysis_checks, limit_checks,
  gross_checks, net_checks, turnover_checks, exposure_checks, concentration_checks, stress_checks,
}
use ai_native_hedge_fund_ch.Risk.Review.{evaluate_portfolio_risk, all_checks, proposal_checks}

module _ {F : Type 0} where
  record Coherent (checks : List (RiskCheck F)) : Type 0 where
    pub each : All IsCoherent checks

  Coherent-nil : Coherent []
  Coherent-nil = record { each = tt }

  Coherent-one : {c : RiskCheck F} → IsCoherent c → Coherent (c ∷ [])
  Coherent-one h = record { each = (h, tt) }

  Coherent-if :
      (b : Bool) (xs ys : List (RiskCheck F))
      → Coherent xs
      → Coherent ys
      → Coherent (if b then xs else ys)
  Coherent-if true xs ys h k = h
  Coherent-if false xs ys h k = k

  join : {xs ys : List (RiskCheck F)} → Coherent xs → Coherent ys → Coherent (xs ++ ys)
  join {xs} {ys} h k = record { each = All-append IsCoherent xs ys h.each k.each }

  check-IsCoherent :
      (t i r : String) (s : RiskCheckStatus) (v : Severity) (b : Bool) (m : String)
      → (x : Measurement F) → b ≡ is_fail s
      → truthy m ≡ true
      → is_some x.observed_value ≡ is_some x.limit_value
      → is_some x.observed_value ≡ is_some x.unit
      → IsCoherent (build_risk_check t i r s v b m x)
  unfolding build_risk_check validate_check
  check-IsCoherent t i r s v b m x h e l u = record { blocks_on_fail = h; valid = ground arith }

ruleset coherent_rules = (Coherent-nil, Coherent-one, Coherent-if, join, check-IsCoherent)

module _ {F : Type 0} where
  construction_context-Coherent :
      (ideas : List PositionIdea) (x : ReviewContext F) (p : Option (PortfolioProposal F))
      → Coherent (construction_context_checks ideas x p)
  unfolding construction_context_checks
  construction_context-Coherent ideas x none = Coherent-nil
  construction_context-Coherent ideas x (some p) = search coherent_rules

  arbitration-Coherent :
      (x : ReviewContext F) (p : Option (PortfolioProposal F)) → Coherent (arbitration_checks x p)
  unfolding arbitration_checks
  arbitration-Coherent x p = search coherent_rules

  analysis-Coherent :
      (x : ReviewContext F) (p : Option (PortfolioProposal F)) → Coherent (analysis_checks x p)
  unfolding analysis_checks
  analysis-Coherent x none = Coherent-nil
  analysis-Coherent x (some p) = search coherent_rules

  completeness-Coherent : (idea : PositionIdea) → Coherent (completeness_checks {F = F} idea)
  unfolding completeness_checks
  completeness-Coherent idea = search coherent_rules

  signal-Coherent : (idea : PositionIdea) (s : Option (Signal F)) → Coherent (signal_checks idea s)
  unfolding signal_checks
  signal-Coherent idea none = search coherent_rules
  signal-Coherent idea (some signal) = search coherent_rules

  grade-Coherent :
      (idea : PositionIdea) (g : EvidenceGrade) → Coherent (grade_checks {F = F} idea g)
  unfolding grade_checks
  grade-Coherent idea EvidenceGrade.strong = search coherent_rules
  grade-Coherent idea EvidenceGrade.moderate = search coherent_rules
  grade-Coherent idea EvidenceGrade.weak = search coherent_rules
  grade-Coherent idea EvidenceGrade.insufficient = search coherent_rules

  evidence-Coherent :
      (idea : PositionIdea) (e : Option EvidenceAssessment)
      → Coherent (evidence_checks {F = F} idea e)
  unfolding evidence_checks
  evidence-Coherent idea none = Coherent-nil
  evidence-Coherent idea (some assessment) = grade-Coherent idea assessment.grade

  stress-Coherent : (x : ReviewContext F) (p : PortfolioProposal F) → Coherent (stress_checks x p)
  unfolding stress_checks
  stress-Coherent x p = search coherent_rules

module _ {F : Type 0} (float : Float F) where
  single_name-Coherent :
      (idea : PositionIdea) (o : Option (PortfolioConstraint F))
      → Coherent (single_name_checks float idea o)
  unfolding single_name_checks
  single_name-Coherent idea none = Coherent-nil
  single_name-Coherent idea (some c) = elim (Option-cases c.hard_limit) [
    | inl e ↦ rw (e, single_name_checks) Coherent-nil
    | inr (l, e) ↦ rw (e, single_name_checks) (search coherent_rules)
  ]

  limit-Coherent :
      (rule_name : String) (s : RiskCheckStatus) (v : Severity) (b : Bool) (m id : String) (n : ℤ)
      → (o : Option (PortfolioConstraint F)) → b ≡ is_fail s
      → truthy m ≡ true
      → Coherent (limit_checks float rule_name s v b m id n o)
  unfolding limit_checks
  limit-Coherent rule_name s v b m id n none f h = Coherent-nil
  limit-Coherent rule_name s v b m id n (some c) f h = elim (Option-cases c.hard_limit) [
    | inl e ↦ rw (e, limit_checks) Coherent-nil
    | inr (l, e) ↦ rw (e, limit_checks) (search coherent_rules)
  ]

  all_idea-Coherent :
      (constraints : List (PortfolioConstraint F)) (d : ReviewData F) (ideas : List PositionIdea)
      → Coherent (all_idea_checks float constraints d ideas)
  unfolding all_idea_checks idea_checks
  all_idea-Coherent constraints d [] = Coherent-nil
  all_idea-Coherent constraints d (idea ∷ ideas) =
      join
        (join (completeness-Coherent idea) (
          join (single_name-Coherent idea _) (
            join (signal-Coherent idea (d.signals_by_id idea.signal_id))
              (evidence-Coherent idea (evidence_of_idea d idea)))))
        (all_idea-Coherent constraints d ideas)

  proposal-Coherent :
      (constraints : List (PortfolioConstraint F)) (x : ReviewContext F)
      → (p : Option (PortfolioProposal F)) → Coherent (proposal_checks float constraints x p)
  unfolding proposal_checks exposure_checks gross_checks net_checks turnover_checks
      concentration_checks
  proposal-Coherent constraints x none = Coherent-nil
  proposal-Coherent constraints x (some p) =
      join
        (join (limit-Coherent _ _ _ _ _ _ _ _ refl refl) (
          join (limit-Coherent _ _ _ _ _ _ _ _ refl refl)
            (limit-Coherent _ _ _ _ _ _ _ _ refl refl)))
        (join (search coherent_rules) (stress-Coherent x p))

  all_checks-Coherent :
      (ideas : List PositionIdea) (proposal : Option (PortfolioProposal F))
      → (constraints : List (PortfolioConstraint F)) (d : ReviewData F) (x : ReviewContext F)
      → Coherent (all_checks float ideas proposal constraints d x)
  unfolding all_checks
  all_checks-Coherent ideas proposal constraints d x =
      join (construction_context-Coherent ideas x proposal) (
        join (arbitration-Coherent x proposal) (
          join (analysis-Coherent x proposal) (
            join (all_idea-Coherent constraints d ideas)
              (proposal-Coherent constraints x proposal))))

  -- At every place where the review builds a check, its status and its blocking flag agree: the
  -- check satisfies the validator of `RiskCheck` and blocks exactly if its status is FAIL. So the
  -- issues of the review are the messages of the failed checks, in their order.
  pub checks-IsCoherent :
      (ideas : List PositionIdea) (proposal : Option (PortfolioProposal F))
      → (constraints : List (PortfolioConstraint F)) (d : ReviewData F) (x : ReviewContext F)
      → let review = evaluate_portfolio_risk float ideas proposal constraints d x in
        All IsCoherent review.risk_checks
        × (review.issues ≡ map (λ c. c.message) (filter (λ c. is_fail c.status) review.risk_checks))
  unfolding evaluate_portfolio_risk
  checks-IsCoherent ideas proposal constraints d x =
      let h = (all_checks-Coherent ideas proposal constraints d x).each in
      (h, issues_of_failed (all_checks float ideas proposal constraints d x) h)
