-- ===== src/DataQuality/PaperTrades/Verdict.antt =====
-- What the gate of paper trades decides, and on what grounds.
use ai_native_hedge_fund_ch.Prelude.{
  ◌≡◌, refl, ap, ◌∙◌, ◌⊎◌, inl, inr, true, false, Option, none, some, List, [], ◌∷◌, ◌++◌, All,
  Elem, Bool-cases, is_some, is_empty, ok, str_eq,
}
use ai_native_hedge_fund_ch.Schemas.Enums.{pass, quarantine}
use ai_native_hedge_fund_ch.Schemas.Portfolio.{PortfolioProposal, PaperTrade}
use ai_native_hedge_fund_ch.PaperExecution.{is_approved_proposal, is_blocked}
use ai_native_hedge_fund_ch.DataQuality.{
  ContractViolation, RefusalReason, ValidationGate, ValidationGateResult, provenance_failures,
  finalize_gate_result,
}
use ai_native_hedge_fund_ch.DataQuality.Finalization.{
  blocked_decision, finalize_clean, finalize_blocked,
}
use ai_native_hedge_fund_ch.DataQuality.Judged.{StartsBlocking, starts_with}
use ai_native_hedge_fund_ch.DataQuality.PaperTrades.{
  GateContext, not_approved, still_blocked, proposal_violations, trade_violation, is_known_position,
  link_violations, trade_violations, all_trade_violations, gate_findings,
  validate_paper_trade_request, given,
}

module _ {F : Type 0} (context : GateContext F) where
  -- A trade that the gate has nothing against: it names the proposal and an idea of it, and its
  -- provenance is complete.
  pub record IsSound (p : PortfolioProposal F) (t : PaperTrade F) : Type 0 where
    pub owned : str_eq t.portfolio_proposal_id p.portfolio_proposal_id ≡ true
    pub known : is_known_position context p t ≡ true
    pub traced : is_empty (provenance_failures true (context.provenance t)) ≡ true

  trade_verdict :
      (p : PortfolioProposal F) (t : PaperTrade F) (vs : List ContractViolation)
      → (IsSound p t × (trade_violations context p t ++ vs ≡ vs))
        ⊎ ((¬ IsSound p t) × StartsBlocking (trade_violations context p t ++ vs))
  unfolding trade_violations link_violations trade_violation
  trade_verdict p t vs =
      elim (Bool-cases (str_eq t.portfolio_proposal_id p.portfolio_proposal_id)) [
        | inr o ↦ rw o (inr ((λ s. cc (s.owned, o)), refl))
        | inl o ↦ rw o (elim (Bool-cases (is_known_position context p t)) [
          | inr k ↦ rw k (inr ((λ s. cc (s.known, k)), refl))
          | inl k ↦
              rw k (elim (Bool-cases (is_empty (provenance_failures true (context.provenance t)))) [
                | inr c ↦ rw c (inr ((λ s. cc (s.traced, c)), refl))
                | inl c ↦ rw c (inl (record { owned = o; known = k; traced = c }, refl))
              ])
        ])
      ]

  -- The loop: every trade is sound and nothing is found, or some trade is not and a blocking
  -- violation is.
  data TradesVerdict (p : PortfolioProposal F) (trades : List (PaperTrade F)) : Type 0 where
    clean :
        All (IsSound p) trades → all_trade_violations context p trades ≡ [] → TradesVerdict p trades
    broken :
        (t : PaperTrade F)
        → Elem t trades
        → ¬ IsSound p t
        → StartsBlocking (all_trade_violations context p trades)
        → TradesVerdict p trades

  trades_verdict : (p : PortfolioProposal F) (trades : List (PaperTrade F)) → TradesVerdict p trades
  unfolding all_trade_violations
  trades_verdict p [] = clean tt refl
  trades_verdict p (t ∷ trades) =
      let rest = trades_verdict p trades in
      elim (trade_verdict p t (all_trade_violations context p trades)) [
        | inr h ↦ broken t (inl refl) h.0 h.1
        | inl h ↦ elim rest [
          | clean each none_found ↦ clean (h.0, each) (h.1 ∙ none_found)
          | broken u e bad starts ↦ broken u (inr e) bad (rw h.1 starts)
        ]
      ]

  -- The grounds of a gate: everything is in order and it passes, the proposal is unfit, or it is
  -- fit and one of its trades is not sound.
  pub data IsDecided (p : PortfolioProposal F) (trades : Option (List (PaperTrade F)))
      (gate : ValidationGate) : Type 0 where
    admitted :
        is_approved_proposal p.status ≡ true
        → is_blocked p ≡ false
        → All (IsSound p) (given context trades)
        → gate.decision ≡ pass
        → gate.refusal_reason ≡ none
        → IsDecided p trades gate
    unfit :
        (is_approved_proposal p.status ≡ false) ⊎ (is_blocked p ≡ true)
        → gate.decision ≡ blocked_decision (is_some trades)
        → gate.refusal_reason ≡ some RefusalReason.invalid_review_state
        → IsDecided p trades gate
    unsound :
        is_approved_proposal p.status ≡ true
        → is_blocked p ≡ false
        → (t : PaperTrade F) → Elem t (given context trades)
        → ¬ IsSound p t
        → gate.decision ≡ quarantine
        → is_some gate.refusal_reason ≡ true
        → IsDecided p trades gate

module _ {F : Type 0} (context : GateContext F) where
  unfit_proposal :
      (p : PortfolioProposal F) (vs : List ContractViolation)
      → (is_approved_proposal p.status ≡ false) ⊎ (is_blocked p ≡ true)
      → (v : ContractViolation) × (rest : List ContractViolation) × (proposal_violations context p
            ++ vs
          ≡ v ∷ rest)
        × (v.blocking ≡ true)
        × (v.refusal_reason ≡ RefusalReason.invalid_review_state)
  unfolding proposal_violations not_approved still_blocked
  unfit_proposal p vs why = elim (Bool-cases (is_approved_proposal p.status)) [
    | inr a ↦ rw a (_, _, refl, refl, refl)
    | inl a ↦ elim (Bool-cases (is_blocked p)) [
      | inl b ↦ rw (a, b) (_, _, refl, refl, refl)
      | inr b ↦ absurd (elim why [ inl n ↦ cc (a, n) | inr y ↦ cc (b, y) ])
    ]
  ]

  fit_proposal :
      (p : PortfolioProposal F)
      → is_approved_proposal p.status ≡ true
      → is_blocked p ≡ false
      → proposal_violations context p ≡ []
  unfolding proposal_violations
  fit_proposal p a b = rw (a, b) refl

  findings_lem :
      (p : PortfolioProposal F) (trades : Option (List (PaperTrade F)))
      → ((gate_findings context p trades).issues ≡ [])
        × ((gate_findings context p trades).violations
            ≡ proposal_violations context p
              ++ all_trade_violations context p (given context trades))
        × ((gate_findings context p trades).quarantine_on_blocking ≡ is_some trades)
  unfolding gate_findings
  findings_lem p trades = (refl, refl, refl)

  some_of_Elem :
      (trades : Option (List (PaperTrade F))) (t : PaperTrade F)
      → Elem t (given context trades)
      → is_some trades ≡ true
  some_of_Elem none t e = absurd e
  some_of_Elem (some trades) t e = refl

  abbrev Answer : PortfolioProposal F → Option (List (PaperTrade F)) → Type 0
  Answer p trades =
      (r : ValidationGateResult) × (finalize_gate_result (gate_findings context p trades) false
        ≡ ok r)
      × IsDecided context p trades r.validation_gate

  held :
      (p : PortfolioProposal F) (trades : Option (List (PaperTrade F)))
      → (is_approved_proposal p.status ≡ false) ⊎ (is_blocked p ≡ true)
      → Answer p trades
  held p trades why =
      let (is_clear, all_of, quarantines) = findings_lem p trades in
      let (v, rest, e, b, reason) = unfit_proposal p _ why in
      let (r, run, decision, because) =
        finalize_blocked (gate_findings context p trades) (all_of ∙ e) b in
      (r, run, unfit why (decision ∙ ap blocked_decision quarantines) (because ∙ ap some reason))

  judged :
      (p : PortfolioProposal F) (trades : Option (List (PaperTrade F)))
      → is_approved_proposal p.status ≡ true
      → is_blocked p ≡ false
      → TradesVerdict context p (given context trades)
      → Answer p trades
  judged p trades a b verdict =
      let (is_clear, all_of, quarantines) = findings_lem p trades in
      let only =
        all_of
        ∙ ap (λ l. l ++ all_trade_violations context p (given context trades))
            (fit_proposal p a b) in
      elim verdict [
        | clean each none_found ↦
            let (r, run, decision, because) =
              finalize_clean (gate_findings context p trades) false is_clear (only ∙ none_found) in
            (r, run, admitted a b each decision because)
        | broken t e bad first ↦
            let (v, rest, e1, blocks) = starts_with _ first in
            let (r, run, decision, because) =
              finalize_blocked (gate_findings context p trades) (only ∙ e1) blocks in
            let kept = ap blocked_decision (quarantines ∙ some_of_Elem trades t e) in
            (r, run, unsound a b t e bad (decision ∙ kept) (ap is_some because))
      ]

  -- Without a request to raise, the gate always answers, and it passes exactly when the proposal is
  -- approved, has neither a blocking issue nor a blocking check, and every given trade names the
  -- proposal and one of its ideas and has complete provenance. Otherwise it blocks: an unfit
  -- proposal is refused, or quarantined if trades were given, as an invalid review state; a fit one
  -- with an unsound trade is quarantined for some reason.
  pub validate_paper_trade_request-IsDecided :
      (p : PortfolioProposal F) (trades : Option (List (PaperTrade F)))
      → (r : ValidationGateResult) × (validate_paper_trade_request context p trades false ≡ ok r)
        × IsDecided context p trades r.validation_gate
  unfolding validate_paper_trade_request
  validate_paper_trade_request-IsDecided p trades =
      elim (Bool-cases (is_approved_proposal p.status)) [
        | inr a ↦ held p trades (inl a)
        | inl a ↦ elim (Bool-cases (is_blocked p)) [
          | inl b ↦ held p trades (inr b)
          | inr b ↦ judged p trades a b (trades_verdict context p (given context trades))
        ]
      ]
