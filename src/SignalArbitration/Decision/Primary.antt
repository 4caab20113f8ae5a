-- ===== src/SignalArbitration/Decision/Primary.antt =====
-- What a selected primary signal stands for: the outcome of `run_signal_arbitration`.
use ai_native_hedge_fund_ch.Prelude.{
  ℕ, ◌≤◌, ◌≡◌, refl, String, false, Option, none, some, List, [], ◌∷◌, ◌++◌, inl, inr, arith, All,
  All-filter, All-elem, Elem, any, any-false, filter, not, ◌&&◌, str_eq, Bool-cases, Option-cases,
  HasDistinctKeys, All-sort_by, All-sort_by_back, IsAscending, sort_by-IsAscending,
  sort_by-HasDistinctKeys,
}
use ai_native_hedge_fund_ch.PyFloat.{Float}
use ai_native_hedge_fund_ch.Portfolio.Inputs.{Signal, EvidenceAssessment}
use ai_native_hedge_fund_ch.SignalArbitration.Calibration.{
  SignalExclusionReason, ArbitrationCandidate, exclusion, calibrate, build_signal_calibrations,
}
use ai_native_hedge_fund_ch.SignalArbitration.Conflicts.{
  SignalConflict, is_member, detect_signal_conflicts,
}
use ai_native_hedge_fund_ch.SignalArbitration.Decision.{
  ArbitrationOutcome, blocks, precedes, sort_candidates, duplicates, suppress_lower, suppress_from,
  suppressed_duplicate_signal_ids, prioritized, primary_of, build_arbitration_decision, arbitrate,
}
use ai_native_hedge_fund_ch.SignalArbitration.Decision.Order.{coarse_key, id_of, precedes-Refines}

abbrev pub primary_id : ArbitrationOutcome → Option String
primary_id outcome = outcome.decision.selected_primary_signal_id

is_member_append :
    (x : String) (ys zs : List String)
    → is_member x ys ≡ false
    → is_member x zs ≡ false
    → is_member x (ys ++ zs) ≡ false
is_member_append x [] zs h k = k
is_member_append x (y ∷ ys) zs h k = ground (arith, is_member_append x ys zs)

module _ {F : Type 0} where
  -- A candidate with an identifier of its own is not suppressed by the others.
  suppress_lower_keeps :
      (x : String) (c : ArbitrationCandidate F) (suppressed : List String)
      → (cs : List (ArbitrationCandidate F)) → All (λ d. str_eq x (id_of d) ≡ false) cs
      → is_member x suppressed ≡ false
      → is_member x (suppress_lower c suppressed cs) ≡ false
  unfolding suppress_lower
  suppress_lower_keeps x c suppressed [] fresh h = h
  suppress_lower_keeps x c suppressed (d ∷ ds) fresh h =
      elim (Bool-cases (not (is_member (id_of d) suppressed) && duplicates c d)) [
        | inl t ↦ rw t (
            suppress_lower_keeps x c (suppressed ++ id_of d ∷ []) ds fresh.1
              (is_member_append x suppressed (id_of d ∷ []) h (ground (arith, fresh.0))))
        | inr f ↦ rw f (suppress_lower_keeps x c suppressed ds fresh.1 h)
      ]

  suppress_from_keeps :
      (x : String) (suppressed : List String) (cs : List (ArbitrationCandidate F))
      → All (λ d. str_eq x (id_of d) ≡ false) cs
      → is_member x suppressed ≡ false
      → is_member x (suppress_from suppressed cs) ≡ false
  unfolding suppress_from
  suppress_from_keeps x suppressed [] fresh h = h
  suppress_from_keeps x suppressed (c ∷ cs) fresh h =
      elim (Bool-cases (is_member (id_of c) suppressed)) [
        | inl t ↦ rw t (suppress_from_keeps x suppressed cs fresh.1 h)
        | inr f ↦ rw f (
            suppress_from_keeps x (suppress_lower c suppressed cs) cs fresh.1
              (suppress_lower_keeps x c suppressed cs fresh.1 h))
      ]

  top_is_kept :
      (top : ArbitrationCandidate F) (rest : List (ArbitrationCandidate F))
      → HasDistinctKeys id_of (top ∷ rest)
      → is_member (id_of top) (suppressed_duplicate_signal_ids (top ∷ rest)) ≡ false
  unfolding suppressed_duplicate_signal_ids suppress_from
  top_is_kept top rest distinct =
      suppress_from_keeps (id_of top) (suppress_lower top [] rest) rest distinct.0
        (suppress_lower_keeps (id_of top) top [] rest distinct.0 refl)

  -- What is known of the candidate that a primary identifier names.
  pub record IsPrimary (P : ArbitrationCandidate F → Type 0) (conflicts : List SignalConflict)
      (id : String) : Type 0 where
    pub candidate : ArbitrationCandidate F
    pub has_id : id_of candidate ≡ id
    pub known : P candidate
    pub unblocked : All (λ conflict. blocks id conflict ≡ false) conflicts

  primary_of-IsPrimary :
      (P : ArbitrationCandidate F → Type 0) (conflicts : List SignalConflict) {id : String}
      → (cs : List (ArbitrationCandidate F)) → All P cs
      → primary_of conflicts cs ≡ some id
      → IsPrimary P conflicts id
  unfolding primary_of
  primary_of-IsPrimary P conflicts [] h e = absurd (cc)
  primary_of-IsPrimary P conflicts {id} (c ∷ cs) h e =
      elim (Bool-cases (any (blocks (id_of c)) conflicts)) [
        | inl t ↦ absurd (cc (rw t at e))
        | inr f ↦
            let same : id_of c ≡ id = cc (rw f at e) in
            record {
              candidate = c;
              has_id = same;
              known = h.0;
              unblocked = rw (← same) (any-false (blocks (id_of c)) conflicts f);
            }
      ]

module _ {F : Type 0} (float : Float F) (as_of_time : Option ℕ)
    (assessments : String → Option EvidenceAssessment) where
  -- A candidate is the calibration of a signal that passed the three guards.
  pub record IsEligible (signals : List (Signal F)) (c : ArbitrationCandidate F) : Type 0 where
    pub signal : Signal F
    pub is_loaded : Elem signal signals
    pub not_excluded : exclusion as_of_time signal ≡ none
    pub calibrated : c ≡ calibrate float as_of_time assessments signal

  abbrev pub candidates_of : List (Signal F) → List (ArbitrationCandidate F)
  candidates_of signals = (build_signal_calibrations float as_of_time assessments signals).0

  pub candidates_of_kept :
      (signal : Signal F) (signals : List (Signal F))
      → exclusion as_of_time signal ≡ none
      → candidates_of (signal ∷ signals)
        ≡ calibrate float as_of_time assessments signal ∷ candidates_of signals
  unfolding build_signal_calibrations
  candidates_of_kept signal signals kept = rw (candidates_of, kept) refl

  pub candidates_of_excluded :
      (signal : Signal F) (signals : List (Signal F)) {reason : SignalExclusionReason}
      → exclusion as_of_time signal ≡ some reason
      → candidates_of (signal ∷ signals) ≡ candidates_of signals
  unfolding build_signal_calibrations
  candidates_of_excluded signal signals excluded = rw (candidates_of, excluded) refl

  All-candidates :
      (P : ArbitrationCandidate F → Type 0) (signals : List (Signal F))
      → ((signal : Signal F)
          → Elem signal signals
          → exclusion as_of_time signal ≡ none
          → P (calibrate float as_of_time assessments signal))
      → All P (candidates_of signals)
  unfolding build_signal_calibrations
  All-candidates P [] good = tt
  All-candidates P (signal ∷ signals) good =
      let rest = All-candidates P signals (λ s e. good s (inr e)) in
      elim (Option-cases (exclusion as_of_time signal)) [
        | inl kept ↦ rw (candidates_of_kept signal signals kept) (good signal (inl refl) kept, rest)
        | inr (reason, e) ↦ rw (candidates_of_excluded signal signals e) rest
      ]

  candidates-IsEligible :
      (signals : List (Signal F)) → All (IsEligible signals) (candidates_of signals)
  candidates-IsEligible signals =
      All-candidates (IsEligible signals) signals
        (λ s e kept. record { signal = s; is_loaded = e; not_excluded = kept; calibrated = refl })

  candidates-HasDistinctKeys :
      (signals : List (Signal F))
      → HasDistinctKeys (λ s. s.signal_id) signals
      → HasDistinctKeys id_of (candidates_of signals)
  unfolding build_signal_calibrations calibrate
  candidates-HasDistinctKeys [] h = tt
  candidates-HasDistinctKeys (signal ∷ signals) h =
      let rest = candidates-HasDistinctKeys signals h.1 in
      let apart =
        All-candidates (λ c. str_eq signal.signal_id (id_of c) ≡ false) signals
          (λ s e kept.
            All-elem (λ y. str_eq signal.signal_id y.signal_id ≡ false) s signals h.0 e) in
      elim (Option-cases (exclusion as_of_time signal)) [
        | inl kept ↦ rw (candidates_of_kept signal signals kept) (apart, rest)
        | inr (reason, e) ↦ rw (candidates_of_excluded signal signals e) rest
      ]

  no_primary :
      (conflicts : List SignalConflict) {id : String}
      → primary_of conflicts (prioritized {F = F} []) ≡ some id
      → ⊥
  unfolding prioritized primary_of
  no_primary conflicts h = cc

  best_of_ranked :
      (ranked : List (ArbitrationCandidate F)) (conflicts : List SignalConflict) {id : String}
      → IsAscending coarse_key ranked
      → HasDistinctKeys id_of ranked
      → primary_of conflicts (prioritized ranked) ≡ some id
      → (top : ArbitrationCandidate F) × Elem top ranked
        × (id_of top ≡ id)
        × All (λ d. coarse_key top ≤ coarse_key d) ranked
  unfolding prioritized primary_of
  best_of_ranked [] conflicts {id} order distinct e = absurd (no_primary conflicts e)
  best_of_ranked (top ∷ rest) conflicts {id} order distinct e =
      let suppressed = suppressed_duplicate_signal_ids (top ∷ rest) in
      let kept = top_is_kept top rest distinct in
      let e' : primary_of conflicts (top ∷ filter (λ c. not (is_member (id_of c) suppressed)) rest)
          ≡ some id =
        rw (prioritized, kept) at e in
      elim (Bool-cases (any (blocks (id_of top)) conflicts)) [
        | inl t ↦ absurd (cc (rw (primary_of, t) at e'))
        | inr f ↦
            let same : id_of top ≡ id = cc (rw (primary_of, f) at e') in
            (top, inl refl, same, (omega arith, order.0))
      ]

  module _ (make_id : String → List String → String) (company_id as_of_text : String) where
    -- The primary is a candidate that no blocking conflict names.
    pub arbitrate-IsEligible :
        (signals : List (Signal F)) {id : String}
        → primary_id (arbitrate float make_id company_id as_of_text as_of_time assessments signals)
          ≡ some id
        → IsPrimary
            (IsEligible signals)
            (detect_signal_conflicts float make_id as_of_time (candidates_of signals))
            id
    unfolding arbitrate build_arbitration_decision prioritized sort_candidates
    arbitrate-IsEligible signals {id} e =
        let ranked = sort_candidates float (candidates_of signals) in
        primary_of-IsPrimary (IsEligible signals) _ (prioritized ranked)
          (All-filter (IsEligible signals) _ ranked (
            All-sort_by (precedes float) (IsEligible signals) (candidates_of signals)
              (candidates-IsEligible signals)))
          e

    -- If the loaded signals have distinct identifiers and the arbitration selects a primary signal,
    -- then the primary is the signal of a candidate which no candidate beats on validation status,
    -- then signal status, then evidence grade: duplicates and finer keys never cost it the place.
    pub arbitrate_best :
        (signals : List (Signal F)) {id : String}
        → HasDistinctKeys (λ s. s.signal_id) signals
        → primary_id (arbitrate float make_id company_id as_of_text as_of_time assessments signals)
          ≡ some id
        → (top : ArbitrationCandidate F) × IsEligible signals top
          × (id_of top ≡ id)
          × All (λ d. coarse_key top ≤ coarse_key d) (candidates_of signals)
    unfolding arbitrate build_arbitration_decision sort_candidates
    arbitrate_best signals distinct e =
        let cs = candidates_of signals in
        let (top, there, same, best) =
          best_of_ranked (sort_candidates float cs) _
            (sort_by-IsAscending (precedes float) coarse_key (precedes-Refines float) cs)
            (sort_by-HasDistinctKeys (precedes float) id_of cs
              (candidates-HasDistinctKeys signals distinct))
            e in
        let eligible =
          All-elem (IsEligible signals) top (sort_candidates float cs)
            (All-sort_by (precedes float) (IsEligible signals) cs (candidates-IsEligible signals))
            there in
        (
          top,
          eligible,
          same,
          All-sort_by_back (precedes float) (λ d. coarse_key top ≤ coarse_key d) cs best,
        )
