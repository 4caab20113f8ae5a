-- ===== src/PortfolioWorkflow/Arbitrated.antt =====
-- The arbitration and the construction together: what becomes of the primary signal.
use ai_native_hedge_fund_ch.Prelude.{
  ℕ, ◌≤◌, ◌-◌, ◌≡◌, refl, sym, ap, ◌∙◌, String, Bool, true, false, Option, some, none, List, [],
  ◌∷◌, ◌⊎◌, inl, inr, arith, All, All-elem, Elem, Elem-sort_by, Bool-cases, HasDistinctKeys,
  sort_by-HasDistinctKeys, IsAscending, sort_by-IsAscending, Refines, str_eq, str_eq_refl, eq_iff,
  if◌then◌else◌,
}
use ai_native_hedge_fund_ch.PyFloat.{Float}
use ai_native_hedge_fund_ch.Portfolio.Inputs.{
  Signal, EvidenceAssessment, LoadedPortfolioInputs, is_selected_primary,
}
use ai_native_hedge_fund_ch.Portfolio.Decisions.{Identity}
use ai_native_hedge_fund_ch.Portfolio.Intake.{
  CandidateContext, is_open_status, candidate_context, intake_candidates,
}
use ai_native_hedge_fund_ch.Portfolio.Intake.Candidates.{
  IsTurnedAway, screen_open, screen_signal, Elem-intake_candidates,
  intake_candidates-HasDistinctKeys,
}
use ai_native_hedge_fund_ch.Portfolio.Ranking.{
  candidate_priority, same_rank, ranks_below, rank, top_tied, is_opposing_tie,
}
use ai_native_hedge_fund_ch.Portfolio.Selection.{ranked_candidates}
use ai_native_hedge_fund_ch.SignalArbitration.Calibration.{exclusion, calibrate}
use ai_native_hedge_fund_ch.SignalArbitration.Decision.{build_arbitration_decision, arbitrate}
use ai_native_hedge_fund_ch.SignalArbitration.Decision.Primary.{primary_id, arbitrate-IsEligible}

open_of_not_excluded :
    {F : Type 0} (as_of_time : Option ℕ) (s : Signal F)
    → exclusion as_of_time s ≡ none
    → is_open_status s.status ≡ true
unfolding exclusion is_open_status
open_of_not_excluded as_of_time s h = ground arith

module _ {F : Type 0} (float : Float F) (inputs : LoadedPortfolioInputs F) (ids : Identity) where
  abbrev before : CandidateContext F → CandidateContext F → Bool
  before d c = ranks_below float inputs c.signal d.signal

  abbrev context_id : CandidateContext F → String
  context_id c = c.signal.signal_id

  -- 0 for the primary signal's candidate, 1 for any other.
  abbrev place : CandidateContext F → ℕ
  place c = 1 - candidate_priority inputs c.signal

  before-Refines : Refines before place
  unfolding ranks_below candidate_priority
  before-Refines = (λ d c h. ground arith, λ d c h. ground arith)

  -- The first of the ranking is the signal's candidate, and no tie with it is left open.
  pub record CompetesFirst (id : String) : Type 0 where
    pub top : CandidateContext F
    pub rest : List (CandidateContext F)
    pub is_ranking : ranked_candidates float inputs ids ≡ top ∷ rest
    pub has_id : context_id top ≡ id
    pub untied : is_opposing_tie float inputs top (top ∷ rest) ≡ false

  module _ (id : String)
      (selected : (k : String)
        → is_selected_primary inputs.arbitration_decision k ≡ str_eq id k) where
    place_lem : (c : CandidateContext F) → place c ≡ (if str_eq id (context_id c) then 0 else 1)
    unfolding candidate_priority
    place_lem c = rw (selected (context_id c)) (ground arith)

    place_of_id : (c : CandidateContext F) → context_id c ≡ id → place c ≡ 0
    place_of_id c same = place_lem c ∙ rw (same, str_eq_refl id) refl

    id_of_place : (c : CandidateContext F) → place c ≡ 0 → context_id c ≡ id
    id_of_place c h = elim (Bool-cases (str_eq id (context_id c))) [
      | inl e ↦ sym ((eq_iff id (context_id c)).0 e)
      | inr e ↦ let one : place c ≡ 1 = place_lem c ∙ rw e refl in absurd (omega (arith, h, one))
    ]

    different_rank :
        (top c : CandidateContext F)
        → context_id top ≡ id
        → str_eq (context_id top) (context_id c) ≡ false
        → same_rank float inputs c.signal top.signal ≡ false
    unfolding same_rank candidate_priority
    different_rank top c same apart =
        let e : str_eq id (context_id c) ≡ false = rw (← same) apart in
        rw (selected (context_id c), selected (context_id top), e, same, str_eq_refl id) refl

    others_untied :
        (top : CandidateContext F) (rest : List (CandidateContext F))
        → context_id top ≡ id
        → All (λ c. str_eq (context_id top) (context_id c) ≡ false) rest
        → top_tied float inputs top rest ≡ []
    unfolding top_tied
    others_untied top [] same apart = refl
    others_untied top (c ∷ cs) same apart =
        rw (different_rank top c same apart.0) (others_untied top cs same apart.1)

    top_untied :
        (top : CandidateContext F) (rest : List (CandidateContext F))
        → context_id top ≡ id
        → All (λ c. str_eq (context_id top) (context_id c) ≡ false) rest
        → is_opposing_tie float inputs top (top ∷ rest) ≡ false
    unfolding is_opposing_tie top_tied
    top_untied top rest same apart =
        elim (Bool-cases (same_rank float inputs top.signal top.signal)) [
          | inl e ↦ rw (e, others_untied top rest same apart) refl
          | inr e ↦ rw (e, others_untied top rest same apart) refl
        ]

    first_of :
        (ranking : List (CandidateContext F)) (c : CandidateContext F)
        → ranked_candidates float inputs ids ≡ ranking
        → IsAscending place ranking
        → HasDistinctKeys context_id ranking
        → Elem c ranking
        → context_id c ≡ id
        → CompetesFirst id
    first_of [] c is_ranking order distinct h same = elim h [ ]
    first_of (top ∷ rest) c is_ranking order distinct h same =
        let low : place top ≤ place c = least h in
        let named : context_id top ≡ id =
          id_of_place top (omega (arith, low, place_of_id c same)) in
        record {
          top = top;
          rest = rest;
          is_ranking = is_ranking;
          has_id = named;
          untied = top_untied top rest named distinct.0;
        }
      where
        least : Elem c (top ∷ rest) → place top ≤ place c
        least (inl e) = rw e (omega arith)
        least (inr e) = All-elem (λ x. place top ≤ place x) c rest order.0 e

    primary_first :
        (c : CandidateContext F)
        → HasDistinctKeys (λ s. s.signal_id) inputs.signals
        → Elem c (intake_candidates inputs inputs.signals)
        → context_id c ≡ id
        → CompetesFirst id
    unfolding ranked_candidates rank
    primary_first c distinct h same =
        let cs = intake_candidates inputs inputs.signals in
        first_of (ranked_candidates float inputs ids) c refl
          (sort_by-IsAscending before place before-Refines cs)
          (sort_by-HasDistinctKeys before context_id cs
            (intake_candidates-HasDistinctKeys inputs inputs.signals distinct))
          (Elem-sort_by before c cs h) same

  module _ (make_id : String → List String → String) (company_id as_of_text : String)
      (as_of_time : Option ℕ) (assessments : String → Option EvidenceAssessment) where
    -- If the signals have distinct identifiers, the construction reads the decision of the
    -- arbitration on its own signals, and that decision selects a primary, then either the intake
    -- turns the primary away for its stance, a missing symbol or missing evidence, or the primary's
    -- candidate is the first of the ranking, with no opposing tie.
    pub primary-CompetesFirst :
        {id : String}
        → HasDistinctKeys (λ s. s.signal_id) inputs.signals
        → inputs.arbitration_decision
          ≡ some
              (arbitrate float make_id company_id as_of_text as_of_time assessments
                inputs.signals).decision
        → primary_id
            (arbitrate float make_id company_id as_of_text as_of_time assessments inputs.signals)
          ≡ some id
        → ((s : Signal F) × Elem s inputs.signals × (s.signal_id ≡ id) × IsTurnedAway inputs s)
          ⊎ CompetesFirst id
    unfolding calibrate arbitrate build_arbitration_decision
    primary-CompetesFirst {id} distinct decided chosen =
        let primary =
          arbitrate-IsEligible float as_of_time assessments make_id company_id as_of_text
            inputs.signals chosen in
        let s = primary.known.signal in
        let there = primary.known.is_loaded in
        let same : s.signal_id ≡ id =
          ap (λ c. c.signal.signal_id) (sym primary.known.calibrated) ∙ primary.has_id in
        elim (screen_open inputs s (open_of_not_excluded as_of_time s primary.known.not_excluded)) [
          | inl away ↦ inl (s, there, same, away)
          | inr passed ↦ inr (
              primary_first id (λ k. rw (decided, chosen) refl) (candidate_context inputs s)
                distinct (Elem-intake_candidates inputs s _ inputs.signals there passed)
                (ap (λ t. t.signal_id) (screen_signal inputs s _ passed) ∙ same))
        ]
