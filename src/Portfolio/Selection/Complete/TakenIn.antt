-- ===== src/Portfolio/Selection/Complete/TakenIn.antt =====
-- Every signal is rejected at the intake, or a candidate stands for it in the ranking.
use ai_native_hedge_fund_ch.Prelude.{
  String, ◌≡◌, refl, sym, ap, ◌∙◌, true, false, List, [], ◌∷◌, ◌++◌, ◌⊎◌, inl, inr, map, length,
  ltb, arith, Elem, str_eq, str_eq_refl, Elem-sort_by,
}
use ai_native_hedge_fund_ch.PyFloat.{Float}
use ai_native_hedge_fund_ch.Portfolio.Inputs.{Signal, LoadedPortfolioInputs}
use ai_native_hedge_fund_ch.Portfolio.Decisions.{
  Identity, ConstructionDecision, decision_id_of, build_rejected_construction_decision,
}
use ai_native_hedge_fund_ch.Portfolio.Intake.{
  CandidateContext, screen, intake_rejections, intake_candidates,
}
use ai_native_hedge_fund_ch.Portfolio.Intake.Candidates.{Screening-cases, screen_signal}
use ai_native_hedge_fund_ch.Portfolio.Ranking.{ranks_below, rank}

abbrev pub key : ConstructionDecision → String
key d = d.construction_decision_id

-- Some decision of the list has the identifier.
abbrev pub Has : String → List ConstructionDecision → Type 0
Has id ds = Elem id (map key ds)

pub Has-left : (id : String) (xs ys : List ConstructionDecision) → Has id xs → Has id (xs ++ ys)
Has-left id [] ys h = elim h [ ]
Has-left id (x ∷ xs) ys (inl e) = inl e
Has-left id (x ∷ xs) ys (inr e) = inr (Has-left id xs ys e)

pub Has-right : (id : String) (xs ys : List ConstructionDecision) → Has id ys → Has id (xs ++ ys)
Has-right id [] ys h = h
Has-right id (x ∷ xs) ys h = inr (Has-right id xs ys h)

-- The identifier of the decision on a candidate.
abbrev pub id_of : {F : Type 0} → Identity → CandidateContext F → String
id_of ids c = decision_id_of ids c.signal.signal_id

-- Two candidates of different signals are two.
pub contested_of :
    {F : Type 0} (c d : CandidateContext F) (xs : List (CandidateContext F))
    → Elem c xs
    → Elem d xs
    → str_eq c.signal.signal_id d.signal.signal_id ≡ false
    → ltb 1 (length xs) ≡ true
contested_of c d [] p q h = elim p [ ]
contested_of c d (x ∷ []) (inl p) (inl q) h = absurd (cc (h, p, q, str_eq_refl x.signal.signal_id))
contested_of c d (x ∷ []) (inr p) q h = elim p [ ]
contested_of c d (x ∷ []) (inl p) (inr q) h = elim q [ ]
contested_of c d (x ∷ y ∷ xs) p q h = ground arith

module _ {F : Type 0} (float : Float F) (inputs : LoadedPortfolioInputs F) (ids : Identity) where
  pub Elem-rank :
      (c : CandidateContext F) (xs : List (CandidateContext F))
      → Elem c xs
      → Elem c (rank float inputs xs)
  unfolding rank
  Elem-rank c xs h = Elem-sort_by (λ d c. ranks_below float inputs c.signal d.signal) c xs h

  -- The signal is rejected at the intake, or a candidate stands for it.
  abbrev pub IsTakenIn : Signal F → List (Signal F) → Type 0
  IsTakenIn s signals =
      Has (decision_id_of ids s.signal_id) (intake_rejections inputs ids signals)
      ⊎ ((c : CandidateContext F) × (c.signal ≡ s) × Elem c (intake_candidates inputs signals))

  pub taken_in : (s : Signal F) (signals : List (Signal F)) → Elem s signals → IsTakenIn s signals
  unfolding intake_rejections intake_candidates build_rejected_construction_decision
  taken_in s [] h = elim h [ ]
  taken_in s (t ∷ signals) (inl e) = elim (Screening-cases (screen inputs t)) [
    | inl (c, x) ↦ inr (c, screen_signal inputs t c x ∙ sym e, rw (intake_candidates, x) (inl refl))
    | inr (code, blocking, artifacts, x) ↦
        inl (rw (intake_rejections, x) (inl (ap (λ u. decision_id_of ids u.signal_id) e)))
  ]
  taken_in s (t ∷ signals) (inr e) = elim (Screening-cases (screen inputs t)) [
    | inl (c, x) ↦
        rw (intake_rejections, intake_candidates, x) (candidate_first c (taken_in s signals e))
    | inr (code, blocking, artifacts, x) ↦
        rw (intake_rejections, intake_candidates, x)
          (rejected_first (decision_id_of ids t.signal_id) (taken_in s signals e))
  ]
    where
      candidate_first :
          (c : CandidateContext F)
          → IsTakenIn s signals
          → Has (decision_id_of ids s.signal_id) (intake_rejections inputs ids signals)
            ⊎ ((d : CandidateContext F) × (d.signal ≡ s)
                × Elem d (c ∷ intake_candidates inputs signals))
      candidate_first c (inl h) = inl h
      candidate_first c (inr (d, same, h)) = inr (d, same, inr h)

      rejected_first :
          (k : String)
          → IsTakenIn s signals
          → Elem
              (decision_id_of ids s.signal_id)
              (k ∷ map key (intake_rejections inputs ids signals))
            ⊎ ((d : CandidateContext F) × (d.signal ≡ s)
                × Elem d (intake_candidates inputs signals))
      rejected_first k (inl h) = inl (inr h)
      rejected_first k (inr h) = inr h
