-- ===== src/Risk/Review/Clear.antt =====
-- When the review blocks: exactly if an idea or an exposure breaks one of the hard rules.
use ai_native_hedge_fund_ch.Prelude.{
  ◌≡◌, refl, Bool, true, false, Option, none, some, List, [], ◌∷◌, ◌++◌, All, All-append, All-left,
  All-right, is_some, arith, ◌↔◌, String,
}
use ai_native_hedge_fund_ch.Prelude.Int.{ℤ, abs_ℤ}
use ai_native_hedge_fund_ch.PyFloat.{Float}
use ai_native_hedge_fund_ch.Schemas.Enums.{
  RiskCheckStatus, Severity, strong, moderate, weak, insufficient, single_name, gross_exposure,
  net_exposure, turnover,
}
use ai_native_hedge_fund_ch.Schemas.Portfolio.{
  PortfolioConstraint, PortfolioProposal, PortfolioExposureSummary, PositionIdea, RiskCheck,
}
use ai_native_hedge_fund_ch.Portfolio.Inputs.{Signal, EvidenceAssessment}
use ai_native_hedge_fund_ch.Portfolio.Limits.{constraint_by_type}
use ai_native_hedge_fund_ch.Risk.Checks.{
  build_risk_check, IsClear, issues_of_IsClear, IsClear-of_issues,
}
use ai_native_hedge_fund_ch.Risk.Ideas.{
  ReviewData, completeness_checks, signal_checks, grade_checks, evidence_checks, evidence_of_idea,
  single_name_checks, idea_checks, all_idea_checks, is_incomplete,
}
use ai_native_hedge_fund_ch.Risk.Proposal.{
  ReviewContext, construction_context_checks, arbitration_checks, analysis_checks, limit_checks,
  gross_checks, net_checks, turnover_checks, exposure_checks, concentration_checks, stress_checks,
}
use ai_native_hedge_fund_ch.Risk.Review.{evaluate_portfolio_risk, all_checks, proposal_checks}

abbrev pub is_weak : Option EvidenceAssessment → Bool
is_weak none = false
is_weak (some assessment) = elim assessment.grade [
  | strong ↦ false
  | moderate ↦ false
  | weak ↦ true
  | insufficient ↦ true
]

module _ {F : Type 0} (float : Float F) where
  -- What is measured is not above the hard limit of the constraint, if it has one.
  abbrev pub LimitHolds : ℤ → Option (PortfolioConstraint F) → Type 0
  LimitHolds n none = Unit
  LimitHolds n (some c) = elim c.hard_limit [
    | none ↦ Unit
    | some limit ↦ float.gt (float.of_int n) limit ≡ false
  ]

  -- An idea that breaks no hard rule: it is complete, within the single-name limit, backed by a
  -- known signal, and not by weak evidence.
  pub record IsSound (constraints : List (PortfolioConstraint F)) (d : ReviewData F)
      (idea : PositionIdea) : Type 0 where
    pub complete : is_incomplete idea ≡ false
    pub single : LimitHolds idea.proposed_weight_bps (constraint_by_type constraints single_name)
    pub known : is_some (d.signals_by_id idea.signal_id) ≡ true
    pub supported : is_weak (evidence_of_idea d idea) ≡ false

  -- Exposures that exceed no hard limit.
  pub record IsBounded (constraints : List (PortfolioConstraint F)) (s : PortfolioExposureSummary)
      : Type 0 where
    pub gross : LimitHolds s.gross_exposure_bps (constraint_by_type constraints gross_exposure)
    pub net : LimitHolds (abs_ℤ s.net_exposure_bps) (constraint_by_type constraints net_exposure)
    pub turned : LimitHolds s.turnover_bps_assumption (constraint_by_type constraints turnover)

  abbrev pub IsBoundedIfAny : List (PortfolioConstraint F) → Option (PortfolioProposal F) → Type 0
  IsBoundedIfAny constraints none = Unit
  IsBoundedIfAny constraints (some p) = IsBounded constraints p.exposure_summary

  context-IsClear :
      (ideas : List PositionIdea) (x : ReviewContext F) (p : Option (PortfolioProposal F))
      → IsClear (construction_context_checks ideas x p)
  unfolding construction_context_checks build_risk_check
  context-IsClear ideas x none = tt
  context-IsClear ideas x (some p) = ground arith

  arbitration-IsClear :
      (x : ReviewContext F) (p : Option (PortfolioProposal F)) → IsClear (arbitration_checks x p)
  unfolding arbitration_checks build_risk_check
  arbitration-IsClear x p = ground arith

  analysis-IsClear :
      (x : ReviewContext F) (p : Option (PortfolioProposal F)) → IsClear (analysis_checks x p)
  unfolding analysis_checks build_risk_check
  analysis-IsClear x none = tt
  analysis-IsClear x (some p) = ground arith

  concentration-IsClear : (p : PortfolioProposal F) → IsClear (concentration_checks float p)
  unfolding concentration_checks build_risk_check
  concentration-IsClear p = ground arith

  stress-IsClear : (x : ReviewContext F) (p : PortfolioProposal F) → IsClear (stress_checks x p)
  unfolding stress_checks build_risk_check
  stress-IsClear x p = ground arith

  completeness_iff :
      (idea : PositionIdea)
      → IsClear (completeness_checks {F = F} idea) ↔ (is_incomplete idea ≡ false)
  unfolding completeness_checks build_risk_check
  completeness_iff idea = (λ h. ground arith, λ h. ground arith)

  known_iff :
      (idea : PositionIdea) (s : Option (Signal F))
      → IsClear (signal_checks idea s) ↔ (is_some s ≡ true)
  unfolding signal_checks build_risk_check
  known_iff idea none = (λ h. absurd (cc (h.0)), λ h. absurd (cc))
  known_iff idea (some signal) = (λ h. refl, λ h. ground arith)

  supported_iff :
      (idea : PositionIdea) (e : Option EvidenceAssessment)
      → IsClear (evidence_checks {F = F} idea e) ↔ (is_weak e ≡ false)
  unfolding evidence_checks grade_checks build_risk_check
  supported_iff idea none = (λ h. refl, λ h. tt)
  supported_iff idea (some a) = (λ h. ground arith, λ h. ground arith)

  single_name_iff :
      (idea : PositionIdea) (o : Option (PortfolioConstraint F))
      → IsClear (single_name_checks float idea o) ↔ LimitHolds idea.proposed_weight_bps o
  unfolding single_name_checks build_risk_check
  single_name_iff idea none = (λ h. tt, λ h. tt)
  single_name_iff idea (some c) = (λ h. ground arith, λ h. ground arith)

  limit_iff :
      (rule_name : String) (s : RiskCheckStatus) (v : Severity) (m id : String) (n : ℤ)
      → (o : Option (PortfolioConstraint F))
      → IsClear (limit_checks float rule_name s v true m id n o) ↔ LimitHolds n o
  unfolding limit_checks build_risk_check
  limit_iff rule_name s v m id n none = (λ h. tt, λ h. tt)
  limit_iff rule_name s v m id n (some c) = (λ h. ground arith, λ h. ground arith)

  -- Both parts of a list are clear exactly if the list is.
  IsClear-append : (xs ys : List (RiskCheck F)) → IsClear (xs ++ ys) ↔ (IsClear xs × IsClear ys)
  IsClear-append xs ys = (
    λ h. (All-left (λ c. c.blocking ≡ false) xs ys h, All-right (λ c. c.blocking ≡ false) xs ys h),
    λ h. All-append (λ c. c.blocking ≡ false) xs ys h.0 h.1,
  )

  idea-IsSound :
      (constraints : List (PortfolioConstraint F)) (d : ReviewData F) (idea : PositionIdea)
      → IsClear (idea_checks float constraints d idea)
      → IsSound constraints d idea
  unfolding idea_checks
  idea-IsSound constraints d idea h =
      let (a, rest) = (IsClear-append (completeness_checks idea) _).0 h in
      let (b, rest') =
        (IsClear-append (single_name_checks float idea (constraint_by_type constraints single_name))
            _).0
          rest in
      let (c, e) =
        (IsClear-append (signal_checks idea (d.signals_by_id idea.signal_id)) _).0 rest' in
      record {
        complete = (completeness_iff idea).0 a;
        single = (single_name_iff idea _).0 b;
        known = (known_iff idea _).0 c;
        supported = (supported_iff idea _).0 e;
      }

  sound_idea :
      (constraints : List (PortfolioConstraint F)) (d : ReviewData F) (idea : PositionIdea)
      → IsSound constraints d idea
      → IsClear (idea_checks float constraints d idea)
  unfolding idea_checks
  sound_idea constraints d idea s = (IsClear-append (completeness_checks idea) _).1 (
    (completeness_iff idea).1 s.complete,
    (IsClear-append (single_name_checks float idea (constraint_by_type constraints single_name))
          _).1
        (
          (single_name_iff idea _).1 s.single,
          (IsClear-append (signal_checks idea (d.signals_by_id idea.signal_id)) _).1
              ((known_iff idea _).1 s.known, (supported_iff idea _).1 s.supported),
        ),
  )

  ideas_iff :
      (constraints : List (PortfolioConstraint F)) (d : ReviewData F) (ideas : List PositionIdea)
      → IsClear (all_idea_checks float constraints d ideas) ↔ All (IsSound constraints d) ideas
  unfolding all_idea_checks
  ideas_iff constraints d [] = (λ h. tt, λ h. tt)
  ideas_iff constraints d (idea ∷ ideas) =
      let both =
        IsClear-append (idea_checks float constraints d idea)
          (all_idea_checks float constraints d ideas) in
      (
        λ h. (
          idea-IsSound constraints d idea (both.0 h).0,
          (ideas_iff constraints d ideas).0 (both.0 h).1,
        ),
        λ h. both.1 (sound_idea constraints d idea h.0, (ideas_iff constraints d ideas).1 h.1),
      )

  exposure_iff :
      (constraints : List (PortfolioConstraint F)) (p : PortfolioProposal F)
      → IsClear (exposure_checks float constraints p) ↔ IsBounded constraints p.exposure_summary
  unfolding exposure_checks gross_checks net_checks turnover_checks
  exposure_iff constraints p =
      let outer =
        IsClear-append (gross_checks float constraints p)
          (net_checks float constraints p ++ turnover_checks float constraints p) in
      let inner =
        IsClear-append (net_checks float constraints p) (turnover_checks float constraints p) in
      (
        λ h. record {
          gross = (limit_iff _ _ _ _ _ _ _).0 (outer.0 h).0;
          net = (limit_iff _ _ _ _ _ _ _).0 (inner.0 (outer.0 h).1).0;
          turned = (limit_iff _ _ _ _ _ _ _).0 (inner.0 (outer.0 h).1).1;
        },
        λ h. outer.1 (
          (limit_iff _ _ _ _ _ _ _).1 h.gross,
          inner.1 ((limit_iff _ _ _ _ _ _ _).1 h.net, (limit_iff _ _ _ _ _ _ _).1 h.turned),
        ),
      )

  proposal_iff :
      (constraints : List (PortfolioConstraint F)) (x : ReviewContext F)
      → (p : Option (PortfolioProposal F))
      → IsClear (proposal_checks float constraints x p) ↔ IsBoundedIfAny constraints p
  unfolding proposal_checks
  proposal_iff constraints x none = (λ h. tt, λ h. tt)
  proposal_iff constraints x (some p) =
      let both =
        IsClear-append (exposure_checks float constraints p)
          (concentration_checks float p ++ stress_checks x p) in
      (
        λ h. (exposure_iff constraints p).0 (both.0 h).0,
        λ h. both.1 (
          (exposure_iff constraints p).1 h,
          (IsClear-append (concentration_checks float p) (stress_checks x p)).1
              (concentration-IsClear p, stress-IsClear x p),
        ),
      )

  -- The review reports no blocking issue exactly if every idea is sound and, where there is a
  -- proposal, its gross, absolute net and turnover exposure exceed no hard limit of the first
  -- active constraint of their type. All other rules only warn.
  pub no_issues_iff :
      (ideas : List PositionIdea) (proposal : Option (PortfolioProposal F))
      → (constraints : List (PortfolioConstraint F)) (d : ReviewData F) (x : ReviewContext F)
      → ((evaluate_portfolio_risk float ideas proposal constraints d x).issues ≡ [])
        ↔ (All (IsSound constraints d) ideas × IsBoundedIfAny constraints proposal)
  unfolding evaluate_portfolio_risk all_checks
  no_issues_iff ideas proposal constraints d x =
      let checks = all_checks float ideas proposal constraints d x in
      let ideas_list = all_idea_checks float constraints d ideas in
      let late = proposal_checks float constraints x proposal in
      let last = IsClear-append ideas_list late in
      let third = IsClear-append (analysis_checks x proposal) (ideas_list ++ late) in
      let second =
        IsClear-append (arbitration_checks x proposal)
          (analysis_checks x proposal ++ (ideas_list ++ late)) in
      let first =
        IsClear-append (construction_context_checks ideas x proposal)
          (arbitration_checks x proposal ++ (analysis_checks x proposal ++ (ideas_list ++ late))) in
      (
        λ h.
            let parts = last.0 (third.0 (second.0 (first.0 (IsClear-of_issues checks h)).1).1).1 in
            (
              (ideas_iff constraints d ideas).0 parts.0,
              (proposal_iff constraints x proposal).0 parts.1,
            ),
        λ h. issues_of_IsClear checks (
            first.1 (
              context-IsClear ideas x proposal,
              second.1 (
                arbitration-IsClear x proposal,
                third.1 (
                  analysis-IsClear x proposal,
                  last.1 (
                    (ideas_iff constraints d ideas).1 h.0,
                    (proposal_iff constraints x proposal).1 h.1,
                  ),
                ),
              ),
            )),
      )
