-- ===== src/DataQuality/Finalization.antt =====
-- `_finalize_gate_result`: gates without findings, and gates whose first violation blocks.
use ai_native_hedge_fund_ch.Prelude.{
  ◌≡◌, refl, ap, ◌∙◌, inl, inr, ℕ, suc, Bool, true, false, some, none, List, [], ◌∷◌, Bool-cases,
  filter, length, ltb, ok, err, arith, if◌then◌else◌,
}
use ai_native_hedge_fund_ch.Schemas.Enums.{QualityDecision, pass, refuse, quarantine}
use ai_native_hedge_fund_ch.DataQuality.{
  ContractViolation, RefusalReason, GateFindings, ValidationGateResult, validate_gate,
  gate_decision, gate_of, quality_decision_for_findings, finalize_gate_result, is_blocking_decision,
}

-- The decision for a target with a blocking violation.
abbrev pub blocked_decision : Bool → QualityDecision
blocked_decision quarantine_on_blocking = if quarantine_on_blocking then quarantine else refuse

-- A gate without findings passes.
pub finalize_clean :
    (f : GateFindings) (raise_on_failure : Bool)
    → f.issues ≡ []
    → f.violations ≡ []
    → (r : ValidationGateResult) × (finalize_gate_result f raise_on_failure ≡ ok r)
      × (r.validation_gate.decision ≡ pass)
      × (r.validation_gate.refusal_reason ≡ none)
unfolding finalize_gate_result validate_gate gate_of gate_decision quality_decision_for_findings
finalize_clean f raise_on_failure i v = rw (i, v) (_, refl, refl, refl)

positive : (n : ℕ) → ltb 0 (suc n) ≡ true
positive n = ground arith

blocked_gate :
    (f : GateFindings) {v : ContractViolation} {vs : List ContractViolation}
    → f.violations ≡ v ∷ vs
    → v.blocking ≡ true
    → (gate_decision f ≡ blocked_decision f.quarantine_on_blocking)
      × ((gate_of f).refusal_reason ≡ some v.refusal_reason)
unfolding gate_of gate_decision quality_decision_for_findings
blocked_gate f {vs = vs} e b =
    rw (e, b, positive (length (filter (λ v. v.blocking) vs))) (refl, refl)

-- A blocking gate with a reason is valid.
reasoned_gate :
    (f : GateFindings) (quarantined : Bool) {reason : RefusalReason}
    → gate_decision f ≡ blocked_decision quarantined
    → (gate_of f).refusal_reason ≡ some reason
    → validate_gate (gate_of f) ≡ ok (gate_of f)
unfolding validate_gate gate_of
reasoned_gate f true d h = rw (d, h) refl
reasoned_gate f false d h = rw (d, h) refl

returned :
    (f : GateFindings)
    → validate_gate (gate_of f) ≡ ok (gate_of f)
    → (r : ValidationGateResult) × (finalize_gate_result f false ≡ ok r)
      × (r.validation_gate ≡ gate_of f)
unfolding finalize_gate_result
returned f valid = elim (Bool-cases (is_blocking_decision (gate_of f).decision)) [
  | inl b ↦ rw (valid, b) (_, refl, refl)
  | inr b ↦ rw (valid, b) (_, refl, refl)
]

gate_of-decision : (f : GateFindings) → (gate_of f).decision ≡ gate_decision f
unfolding gate_of
gate_of-decision f = refl

-- A gate whose first violation blocks is returned, with that violation's reason, and has the
-- decision that the caller chose for a blocked target.
pub finalize_blocked :
    (f : GateFindings) {v : ContractViolation} {vs : List ContractViolation}
    → f.violations ≡ v ∷ vs
    → v.blocking ≡ true
    → (r : ValidationGateResult) × (finalize_gate_result f false ≡ ok r)
      × (r.validation_gate.decision ≡ blocked_decision f.quarantine_on_blocking)
      × (r.validation_gate.refusal_reason ≡ some v.refusal_reason)
finalize_blocked f e b =
    let (decision, reason) = blocked_gate f e b in
    let (r, run, same) = returned f (reasoned_gate f f.quarantine_on_blocking decision reason) in
    (
      r,
      run,
      ap (λ g. g.decision) same ∙ gate_of-decision f ∙ decision,
      ap (λ g. g.refusal_reason) same ∙ reason,
    )

blocking_decided : (quarantined : Bool) → is_blocking_decision (blocked_decision quarantined) ≡ true
blocking_decided true = refl
blocking_decided false = refl

-- The same gate is an exception for a caller that asks for one.
pub finalize_raised :
    (f : GateFindings) {v : ContractViolation} {vs : List ContractViolation}
    → f.violations ≡ v ∷ vs
    → v.blocking ≡ true
    → finalize_gate_result f true ≡ err "the gate blocked the target"
unfolding finalize_gate_result
finalize_raised f e b =
    let (decision, reason) = blocked_gate f e b in
    let valid = reasoned_gate f f.quarantine_on_blocking decision reason in
    let blocks =
      ap is_blocking_decision (gate_of-decision f ∙ decision)
      ∙ blocking_decided f.quarantine_on_blocking in
    rw (valid, blocks) refl
