-- ===== src/Portfolio/Intake/Candidates.antt =====
-- The candidates of the intake: each stands for the signal that it was made of.
use ai_native_hedge_fund_ch.Prelude.{
  String, ◌≡◌, refl, Bool, true, false, List, [], ◌∷◌, ◌⊎◌, inl, inr, arith, All, Elem, Bool-cases,
  HasDistinctKeys, is_empty, str_eq,
}
use ai_native_hedge_fund_ch.Portfolio.Inputs.{Signal, LoadedPortfolioInputs}
use ai_native_hedge_fund_ch.Portfolio.Intake.{
  CandidateContext, Screening, excluded, eligible, is_open_status, is_non_directional, has_symbol,
  evidence_links_of, screen, candidate_context, intake_candidates,
}

pub Screening-cases :
    {F : Type 0} (x : Screening F)
    → ((c : CandidateContext F) × (x ≡ eligible c))
      ⊎ ((code : _) × (blocking : Bool) × (artifacts : List String) × (x
            ≡ excluded code blocking artifacts))
Screening-cases (eligible c) = inl (c, refl)
Screening-cases (excluded code blocking artifacts) = inr (code, blocking, artifacts, refl)

module _ {F : Type 0} (inputs : LoadedPortfolioInputs F) where
  pub screen_signal :
      (s : Signal F) (c : CandidateContext F) → screen inputs s ≡ eligible c → c.signal ≡ s
  unfolding screen candidate_context
  screen_signal s c h = ground arith

  -- Why the intake turns away a signal whose status is open.
  abbrev pub IsTurnedAway : Signal F → Type 0
  IsTurnedAway s =
      (is_non_directional s.stance ≡ true)
      ⊎ ((has_symbol inputs.company_ticker ≡ false)
          ⊎ (is_empty (evidence_links_of inputs s) ≡ true))

  pub screen_open :
      (s : Signal F)
      → is_open_status s.status ≡ true
      → IsTurnedAway s ⊎ (screen inputs s ≡ eligible (candidate_context inputs s))
  unfolding screen
  screen_open s h = elim (Bool-cases (is_non_directional s.stance)) [
    | inl e ↦ inl (inl e)
    | inr directional ↦ elim (Bool-cases (has_symbol inputs.company_ticker)) [
      | inr e ↦ inl (inr (inl e))
      | inl symbol ↦ elim (Bool-cases (is_empty (evidence_links_of inputs s))) [
        | inl e ↦ inl (inr (inr e))
        | inr links ↦ inr (rw (h, directional, symbol, links) refl)
      ]
    ]
  ]

  pub Elem-intake_candidates :
      (s : Signal F) (c : CandidateContext F) (signals : List (Signal F))
      → Elem s signals
      → screen inputs s ≡ eligible c
      → Elem c (intake_candidates inputs signals)
  unfolding intake_candidates
  Elem-intake_candidates s c [] h e = elim h [ ]
  Elem-intake_candidates s c (t ∷ signals) (inl same) e =
      rw (← same) (rw (e, intake_candidates) (inl refl))
  Elem-intake_candidates s c (t ∷ signals) (inr h) e =
      let rest = Elem-intake_candidates s c signals h e in
      elim (Screening-cases (screen inputs t)) [
        | inl (d, x) ↦ rw (intake_candidates, x) (inr rest)
        | inr (code, blocking, artifacts, x) ↦ rw (intake_candidates, x) rest
      ]

  -- What holds of the signals holds of the candidates' signals.
  pub All-intake_candidates :
      (P : Signal F → Type 0) (signals : List (Signal F))
      → All P signals
      → All (λ c. P c.signal) (intake_candidates inputs signals)
  unfolding intake_candidates
  All-intake_candidates P [] h = tt
  All-intake_candidates P (s ∷ signals) h =
      let rest = All-intake_candidates P signals h.1 in
      elim (Screening-cases (screen inputs s)) [
        | inl (c, x) ↦ rw (intake_candidates, x) (rw (screen_signal s c x) h.0, rest)
        | inr (code, blocking, artifacts, x) ↦ rw (intake_candidates, x) rest
      ]

  pub intake_candidates-HasDistinctKeys :
      (signals : List (Signal F))
      → HasDistinctKeys (λ s. s.signal_id) signals
      → HasDistinctKeys (λ c. c.signal.signal_id) (intake_candidates inputs signals)
  unfolding intake_candidates
  intake_candidates-HasDistinctKeys [] h = tt
  intake_candidates-HasDistinctKeys (s ∷ signals) h =
      let rest = intake_candidates-HasDistinctKeys signals h.1 in
      let apart = All-intake_candidates (λ t. str_eq s.signal_id t.signal_id ≡ false) signals h.0 in
      elim (Screening-cases (screen inputs s)) [
        | inl (c, x) ↦ rw (intake_candidates, x) (rw (screen_signal s c x) apart, rest)
        | inr (code, blocking, artifacts, x) ↦ rw (intake_candidates, x) rest
      ]
