-- ===== src/DataQuality/Proposals/Admission.antt =====
-- When the gate lets a generated proposal through.
use ai_native_hedge_fund_ch.Prelude.{
  ◌≡◌, ◌↔◌, ◌⊎◌, refl, ◌∙◌, inl, inr, String, Bool, true, false, not, List, [], ◌∷◌, ◌&&◌, any,
  is_empty, All, Elem, Bool-cases, any_of_Elem, and_true, str_eq, eq_iff, ok, err, arith,
}
use ai_native_hedge_fund_ch.Schemas.Enums.{pass}
use ai_native_hedge_fund_ch.Schemas.Portfolio.{PositionIdea, PortfolioProposal}
use ai_native_hedge_fund_ch.DataQuality.{
  ContractViolation, ValidationGateResult, provenance_failures,
}
use ai_native_hedge_fund_ch.DataQuality.Finalization.{finalize_clean, finalize_raised}
use ai_native_hedge_fund_ch.DataQuality.Judged.{
  Judged, clean, broken, judge_both, judge_when, starts_with,
}
use ai_native_hedge_fund_ch.DataQuality.Proposals.{
  GateSignal, ProposalContext, is_subset, has_broken_lineage, is_invalid_score, is_loaded,
  violation, signal_violations, idea_violations, own_violations, collect, violations_of,
  proposal_findings, validate_portfolio_proposal,
}

Elem-of_any : (x : String) (ys : List String) → any (λ y. str_eq x y) ys ≡ true → Elem x ys
Elem-of_any x [] h = cc
Elem-of_any x (y ∷ ys) h = elim (Bool-cases (str_eq x y)) [
  | inl e ↦ inl ((eq_iff x y).0 e)
  | inr e ↦ inr (Elem-of_any x ys (rw e at h))
]

any_of_text : (x : String) (ys : List String) → Elem x ys → any (λ y. str_eq x y) ys ≡ true
any_of_text x ys e = any_of_Elem (λ y. str_eq x y) x ys ((eq_iff x x).1 refl) e

Elem-of_subset :
    (xs ys : List String) → is_subset xs ys ≡ true → (x : String) → Elem x xs → Elem x ys
Elem-of_subset [] ys h x e = absurd e
Elem-of_subset (z ∷ xs) ys h x (inl e) =
    rw e (Elem-of_any z ys (and_true (any (λ y. str_eq z y) ys) (is_subset xs ys) h).0)
Elem-of_subset (z ∷ xs) ys h x (inr e) =
    Elem-of_subset xs ys (and_true (any (λ y. str_eq z y) ys) (is_subset xs ys) h).1 x e

is_subset-of_Elem :
    (xs ys : List String) → ((x : String) → Elem x xs → Elem x ys) → is_subset xs ys ≡ true
is_subset-of_Elem [] ys h = refl
is_subset-of_Elem (z ∷ xs) ys h =
    rw (any_of_text z ys (h z (inl refl))) (is_subset-of_Elem xs ys (λ x e. h x (inr e)))

-- The lineage names at least one feature, and the same ones as the signal.
pub record HasLineage (s : GateSignal) : Type 0 where
  pub some_feature : is_empty s.feature_ids ≡ false
  pub same_features : (x : String) → Elem x s.lineage_feature_ids ↔ Elem x s.feature_ids

HasLineage-iff : (s : GateSignal) → (has_broken_lineage s ≡ false) ↔ HasLineage s
unfolding has_broken_lineage
HasLineage-iff s = (
  λ h.
      let both : (is_subset s.lineage_feature_ids s.feature_ids
            && is_subset s.feature_ids s.lineage_feature_ids)
          ≡ true =
        ground arith in
      let (there, back) = and_true _ _ both in
      record {
        some_feature = ground arith;
        same_features = λ x. (
          Elem-of_subset s.lineage_feature_ids s.feature_ids there x,
          Elem-of_subset s.feature_ids s.lineage_feature_ids back x,
        );
      },
  λ g.
      rw
        (
          g.some_feature,
          is_subset-of_Elem s.lineage_feature_ids s.feature_ids (λ x. (g.same_features x).0),
          is_subset-of_Elem s.feature_ids s.lineage_feature_ids (λ x. (g.same_features x).1),
        )
        refl,
)

judge_iff : {P Q : Type 0} {vs : List ContractViolation} → P ↔ Q → Judged P vs → Judged Q vs
judge_iff (there, back) (clean p e) = clean (there p) e
judge_iff (there, back) (broken n h) = broken (λ q. n (back q)) h

collect-Judged :
    {A : Type 0} {Good : A → Type 0} {F : Type 0} (context : ProposalContext F)
    → (of : A → List ContractViolation) → ((a : A) → Judged (Good a) (of a))
    → (items : List A) → Judged (All Good items) (collect context of items)
collect-Judged context of each [] = clean tt refl
collect-Judged context of each (a ∷ rest) =
    judge_both (each a) (collect-Judged context of each rest)

present_of : (b : Bool) → (not b ≡ false) ↔ (b ≡ true)
present_of true = (λ h. refl, λ h. refl)
present_of false = (λ h. cc, λ h. cc)

module _ {F : Type 0} (context : ProposalContext F) where
  -- A signal with complete provenance, with a lineage, and whose component scores each name
  -- features, all of them the signal's.
  pub record IsCoherent (s : GateSignal) : Type 0 where
    pub traced : is_empty (provenance_failures true s.provenance) ≡ true
    pub lineage : HasLineage s
    pub scored : any (is_invalid_score s) s.component_scores ≡ false

  -- An idea of a loaded signal, with complete provenance.
  pub record IsLinked (signals : List GateSignal) (idea : PositionIdea) : Type 0 where
    pub loaded : is_loaded signals idea ≡ true
    pub traced : is_empty (provenance_failures true (context.idea_provenance idea)) ≡ true

  pub record IsAdmissible (signals : List GateSignal) (ideas : List PositionIdea)
      (p : PortfolioProposal F) : Type 0 where
    pub signals_coherent : All IsCoherent signals
    pub ideas_linked : All (IsLinked signals) ideas
    pub traced : is_empty (provenance_failures true (context.proposal_provenance p)) ≡ true

  signal_violations-Judged : (s : GateSignal) → Judged (IsCoherent s) (signal_violations context s)
  unfolding signal_violations violation
  signal_violations-Judged s =
      judge_iff
        (
          λ ((t, l), c). record {
            traced = (present_of _).0 t;
            lineage = (HasLineage-iff s).0 l;
            scored = c;
          },
          λ g. (((present_of _).1 g.traced, (HasLineage-iff s).1 g.lineage), g.scored),
        )
        (judge_both
          (judge_both (judge_when (not (is_empty (provenance_failures true s.provenance))) _ refl)
            (judge_when (has_broken_lineage s) _ refl))
          (judge_when (any (is_invalid_score s) s.component_scores) _ refl))

  idea_violations-Judged :
      (signals : List GateSignal) (idea : PositionIdea)
      → Judged (IsLinked signals idea) (idea_violations context signals idea)
  unfolding idea_violations violation
  idea_violations-Judged signals idea =
      judge_iff
        (
          λ (l, t). record { loaded = (present_of _).0 l; traced = (present_of _).0 t },
          λ g. ((present_of _).1 g.loaded, (present_of _).1 g.traced),
        )
        (judge_both (judge_when (not (is_loaded signals idea)) _ refl) (
          judge_when (not (is_empty (provenance_failures true (context.idea_provenance idea)))) _
            refl))

  violations-Judged :
      (signals : List GateSignal) (ideas : List PositionIdea) (p : PortfolioProposal F)
      → Judged (IsAdmissible signals ideas p) (violations_of context signals ideas p)
  unfolding violations_of own_violations violation
  violations-Judged signals ideas p =
      judge_iff
        (
          λ ((s, i), t). record {
            signals_coherent = s;
            ideas_linked = i;
            traced = (present_of _).0 t;
          },
          λ g. ((g.signals_coherent, g.ideas_linked), (present_of _).1 g.traced),
        )
        (judge_both
          (judge_both
            (collect-Judged context (signal_violations context) signal_violations-Judged signals)
            (collect-Judged context (idea_violations context signals)
              (idea_violations-Judged signals) ideas))
          (judge_when (not (is_empty (provenance_failures true (context.proposal_provenance p)))) _
            refl))

  findings_lem :
      (signals : List GateSignal) (ideas : List PositionIdea) (p : PortfolioProposal F)
      → ((proposal_findings context signals ideas p).issues ≡ [])
        × ((proposal_findings context signals ideas p).violations
            ≡ violations_of context signals ideas p)
  unfolding proposal_findings
  findings_lem signals ideas p = (refl, refl)

  -- For a caller that asks for an exception, the gate of a generated proposal returns exactly if
  -- every loaded signal has complete provenance, names a feature, has a lineage of the same features
  -- and component scores that each name a feature and only the signal's, every idea belongs to a
  -- loaded signal and has complete provenance, and so has the proposal. It then passes; in every
  -- other case it raises.
  pub validate_portfolio_proposal_lem :
      (signals : List GateSignal) (ideas : List PositionIdea) (p : PortfolioProposal F)
      → (IsAdmissible signals ideas p
          × (r : ValidationGateResult) × (validate_portfolio_proposal context signals ideas p true
              ≡ ok r)
          × (r.validation_gate.decision ≡ pass))
        ⊎ ((¬ IsAdmissible signals ideas p)
            × (validate_portfolio_proposal context signals ideas p true
                ≡ err "the gate blocked the target"))
  unfolding validate_portfolio_proposal
  validate_portfolio_proposal_lem signals ideas p =
      let f = proposal_findings context signals ideas p in
      let (is_clear, all_of) = findings_lem signals ideas p in
      elim (violations-Judged signals ideas p) [
        | clean good none_found ↦
            let (r, run, decision, because) =
              finalize_clean f true is_clear (all_of ∙ none_found) in
            inl (good, r, run, decision)
        | broken bad first ↦
            let (v, rest, e, blocks) = starts_with _ first in
            inr (bad, finalize_raised f (all_of ∙ e) blocks)
      ]
