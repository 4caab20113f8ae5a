-- ===== src/SignalArbitration/Decision/Undisputed.antt =====
-- The signal that the arbitration selects, described without its guards, ranks and conflicts.
use ai_native_hedge_fund_ch.Prelude.{
  ℕ, ◌≤◌, ◌≡◌, ◌≢◌, refl, sym, ap, ◌∙◌, String, false, Option, none, some, List, [], ◌∷◌, inl, inr,
  arith, Elem, Option-cases,
}
use ai_native_hedge_fund_ch.PyFloat.{Float}
use ai_native_hedge_fund_ch.Schemas.Enums.{
  SignalStatus, DerivedArtifactValidationStatus, validated, partially_validated, pending_validation,
  unvalidated, invalidated,
}
use ai_native_hedge_fund_ch.Portfolio.Inputs.{Signal, EvidenceAssessment}
use ai_native_hedge_fund_ch.SignalArbitration.Calibration.{
  status_exclusion, is_invalidated, is_after, exclusion, calibrate,
}
use ai_native_hedge_fund_ch.SignalArbitration.Conflicts.{
  all_pair_conflicts, support_conflicts, detect_signal_conflicts,
}
use ai_native_hedge_fund_ch.SignalArbitration.Decision.{blocks, arbitrate}
use ai_native_hedge_fund_ch.SignalArbitration.Decision.Order.{id_of}
use ai_native_hedge_fund_ch.SignalArbitration.Decision.Primary.{
  primary_id, candidates_of, candidates_of_kept, candidates_of_excluded, arbitrate-IsEligible,
}
use ai_native_hedge_fund_ch.SignalArbitration.Decision.Disputes.{
  AreOpposite, IsBacked, Dispute, none_blocks, all_block, any_right,
}

module _ {F : Type 0} where
  -- A signal that may be used at a time: neither rejected, nor expired, nor invalidated, and in
  -- effect by then.
  pub record IsUsable (as_of_time : Option ℕ) (s : Signal F) : Type 0 where
    pub not_rejected : s.status ≢ SignalStatus.rejected
    pub not_expired : s.status ≢ SignalStatus.expired
    pub not_invalidated : s.validation_status ≢ invalidated
    pub in_effect : (limit : ℕ) → as_of_time ≡ some limit → s.effective_at ≤ limit

  IsUsable-of_exclusion :
      (as_of_time : Option ℕ) (s : Signal F) → exclusion as_of_time s ≡ none → IsUsable as_of_time s
  unfolding exclusion
  IsUsable-of_exclusion as_of_time s h = record {
    not_rejected = λ e. cc (rw e at h);
    not_expired = λ e. cc (rw e at h);
    not_invalidated = λ e. ground arith;
    in_effect = λ limit e. ground arith;
  }

  exclusion-of_IsUsable :
      (as_of_time : Option ℕ) (s : Signal F) → IsUsable as_of_time s → exclusion as_of_time s ≡ none
  unfolding exclusion
  exclusion-of_IsUsable as_of_time s u =
      rw
        (
          exclusion,
          open_status s.status u.not_rejected u.not_expired,
          valid_status s.validation_status u.not_invalidated,
          not_after s.effective_at as_of_time u.in_effect,
        )
        refl
    where
      open_status :
          (status : SignalStatus)
          → status ≢ SignalStatus.rejected
          → status ≢ SignalStatus.expired
          → status_exclusion status ≡ none
      open_status SignalStatus.candidate n m = refl
      open_status SignalStatus.approved n m = refl
      open_status SignalStatus.rejected n m = absurd (n refl)
      open_status SignalStatus.expired n m = absurd (m refl)

      valid_status :
          (status : DerivedArtifactValidationStatus)
          → status ≢ invalidated
          → is_invalidated status ≡ false
      valid_status validated n = refl
      valid_status partially_validated n = refl
      valid_status pending_validation n = refl
      valid_status unvalidated n = refl
      valid_status invalidated n = absurd (n refl)

      not_after :
          (time : ℕ) (limit : Option ℕ)
          → ((bound : ℕ) → limit ≡ some bound → time ≤ bound)
          → is_after time limit ≡ false
      not_after time none h = refl
      not_after time (some bound) h = let le = h bound refl in ground arith

module _ {F : Type 0} (assessments : String → Option EvidenceAssessment) where
  -- Two signals of opposite stances, both with strong or moderate evidence for their hypothesis.
  pub record Disputes (s d : Signal F) : Type 0 where
    pub opposite : AreOpposite s.stance d.stance
    pub backed : IsBacked (assessments s.hypothesis_id)
    pub other_backed : IsBacked (assessments d.hypothesis_id)

  module _ (float : Float F) (as_of_time : Option ℕ) where
    calibrated-Dispute :
        (s d : Signal F)
        → Disputes s d
        → Dispute
            (calibrate float as_of_time assessments s)
            (calibrate float as_of_time assessments d)
    unfolding calibrate
    calibrated-Dispute s d h = record {
      opposite = h.opposite;
      left_backed = h.backed;
      right_backed = h.other_backed;
    }

    id_of-calibrate :
        (s : Signal F) → id_of (calibrate float as_of_time assessments s) ≡ s.signal_id
    unfolding calibrate
    id_of-calibrate s = refl

    Elem-candidates :
        (s : Signal F) (signals : List (Signal F))
        → exclusion as_of_time s ≡ none
        → Elem s signals
        → Elem
            (calibrate float as_of_time assessments s)
            (candidates_of float as_of_time assessments signals)
    Elem-candidates s [] h e = absurd e
    Elem-candidates s (y ∷ signals) h (inl e) =
        rw
          (candidates_of_kept float as_of_time assessments y signals
            (ap (exclusion as_of_time) (sym e) ∙ h))
          (inl (ap (calibrate float as_of_time assessments) e))
    Elem-candidates s (y ∷ signals) h (inr e) =
        let rest = Elem-candidates s signals h e in
        elim (Option-cases (exclusion as_of_time y)) [
          | inl kept ↦
              rw (candidates_of_kept float as_of_time assessments y signals kept) (inr rest)
          | inr (reason, x) ↦
              rw (candidates_of_excluded float as_of_time assessments y signals x) rest
        ]

    -- If the arbitration selects a primary signal, then that is the identifier of a loaded signal
    -- which is neither rejected, expired nor invalidated and is in effect at the as-of time, and no
    -- other such signal disputes it: none has the opposite stance while both have strong or moderate
    -- evidence.
    pub arbitrate-IsUndisputed :
        (make_id : String → List String → String) (company_id as_of_text : String)
        → (signals : List (Signal F)) {id : String}
        → primary_id (arbitrate float make_id company_id as_of_text as_of_time assessments signals)
          ≡ some id
        → (s : Signal F) × Elem s signals
          × (s.signal_id ≡ id)
          × IsUsable as_of_time s
          × ((d : Signal F) → Elem d signals → IsUsable as_of_time d → ¬ Disputes s d)
    unfolding detect_signal_conflicts
    arbitrate-IsUndisputed make_id company_id as_of_text signals {id} e =
        let primary =
          arbitrate-IsEligible float as_of_time assessments make_id company_id as_of_text signals
            e in
        let known = primary.known in
        let s = known.signal in
        let cs = candidates_of float as_of_time assessments signals in
        let named : s.signal_id ≡ id =
          sym (id_of-calibrate s) ∙ ap id_of (sym known.calibrated) ∙ primary.has_id in
        (
          s,
          known.is_loaded,
          named,
          IsUsable-of_exclusion as_of_time s known.not_excluded,
          λ d loaded usable dispute.
              let there = Elem-candidates s signals known.not_excluded known.is_loaded in
              let other =
                Elem-candidates d signals (exclusion-of_IsUsable as_of_time d usable) loaded in
              let found =
                all_block float make_id as_of_time _ _ cs there other
                  (calibrated-Dispute s d dispute) in
              let blocked =
                any_right (blocks (id_of (calibrate float as_of_time assessments s)))
                  (support_conflicts float make_id cs)
                  (all_pair_conflicts float make_id as_of_time cs) found in
              let clear =
                none_blocks id (detect_signal_conflicts float make_id as_of_time cs)
                  primary.unblocked in
              absurd (cc (blocked, clear, id_of-calibrate s ∙ named)),
        )
