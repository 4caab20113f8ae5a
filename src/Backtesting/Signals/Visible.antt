-- ===== src/Backtesting/Signals/Visible.antt =====
-- A signal that is selected for a decision was public knowledge at the decision.
use ai_native_hedge_fund_ch.Prelude.{
  ℕ, ◌+◌, ◌*◌, ◌≤◌, ◌≡◌, refl, String, true, Option, some, List, [], ◌∷◌, inl, inr, arith, All,
  Elem, filter, all, Bool-cases, Option-cases, All-sort_by, leb,
}
use ai_native_hedge_fund_ch.PyFloat.{Float}
use ai_native_hedge_fund_ch.Schemas.Enums.{SignalStatus}
use ai_native_hedge_fund_ch.Timing.Availability.{
  AvailabilityWindow, DecisionCutoff, is_available_by,
}
use ai_native_hedge_fund_ch.Backtesting.Signals.{
  ComparableSignal, SignalSources, is_allowed, or_zero, is_feature_visible, signal_feature_ids,
  is_traceable, validate_comparable_signal, is_eligible, comes_first, head,
  select_signal_for_decision,
}

-- The value of the feature is known, and available by the time.
pub record IsKnownBy (sources : SignalSources) (time : ℕ) (feature_id : String) : Type 0 where
  pub available_at : ℕ
  pub is_known : sources.features_by_id feature_id ≡ some available_at
  pub in_time : available_at ≤ time

module _ {F : Type 0} (sources : SignalSources) (allowlist : List SignalStatus)
    (buffer_minutes : Option ℕ) (signals : List (ComparableSignal F))
    (cutoff : DecisionCutoff) where
  -- What the decision could know of the signal.
  pub record WasKnown (signal : ComparableSignal F) : Type 0 where
    pub is_loaded : Elem signal signals
    pub allowed : is_allowed allowlist signal.status ≡ true
    pub window : AvailabilityWindow
    pub has_window : signal.availability_window ≡ some window
    pub open_by :
        window.available_from + or_zero buffer_minutes * 60 ≤ cutoff.eligible_information_time
    pub traceable : is_traceable sources signal.lineage ≡ true
    pub features :
        All (IsKnownBy sources cutoff.decision_time) (signal_feature_ids sources signal.lineage)

  visible-IsKnownBy :
      (id : String)
      → is_feature_visible sources cutoff.decision_time id ≡ true
      → IsKnownBy sources cutoff.decision_time id
  visible-IsKnownBy id h = elim (Option-cases (sources.features_by_id id)) [
    | inl missing ↦ absurd (cc (rw (is_feature_visible, missing) at h))
    | inr (available_at, found) ↦
        let soon : leb available_at cutoff.decision_time ≡ true =
          rw (is_feature_visible, found) at h in
        record { available_at = available_at; is_known = found; in_time = ground (arith, soon) }
  ]

  features_known :
      (ids : List String)
      → all (is_feature_visible sources cutoff.decision_time) ids ≡ true
      → All (IsKnownBy sources cutoff.decision_time) ids
  features_known [] h = tt
  features_known (id ∷ ids) h =
      elim (Bool-cases (is_feature_visible sources cutoff.decision_time id)) [
        | inl t ↦ (visible-IsKnownBy id t, features_known ids (rw (all, t) at h))
        | inr f ↦ absurd (cc (rw (all, f) at h))
      ]

  eligible-WasKnown :
      (signal : ComparableSignal F)
      → Elem signal signals
      → is_eligible sources allowlist buffer_minutes cutoff signal ≡ true
      → WasKnown signal
  unfolding is_eligible validate_comparable_signal is_available_by
  eligible-WasKnown signal there h = elim (Option-cases signal.availability_window) [
    | inl missing ↦ absurd (ground (arith, rw missing at h))
    | inr (window, found) ↦
        let seen = rw found at h in
        record {
          is_loaded = there;
          allowed = ground (arith, h);
          window = window;
          has_window = found;
          open_by = ground (arith, seen);
          traceable = ground (arith, seen);
          features =
              features_known (signal_feature_ids sources signal.lineage) (ground (arith, seen));
        }
  ]

  filter-WasKnown :
      (some_signals : List (ComparableSignal F))
      → ((signal : ComparableSignal F) → Elem signal some_signals → Elem signal signals)
      → All WasKnown (filter (is_eligible sources allowlist buffer_minutes cutoff) some_signals)
  filter-WasKnown [] inside = tt
  filter-WasKnown (signal ∷ rest) inside =
      let later = filter-WasKnown rest (λ s e. inside s (inr e)) in
      elim (Bool-cases (is_eligible sources allowlist buffer_minutes cutoff signal)) [
        | inl t ↦ rw t (eligible-WasKnown signal (inside signal (inl refl)) t, later)
        | inr f ↦ rw f later
      ]

  All-head : {A : Type 0} (P : A → Type 0) (xs : List A) {x : A} → All P xs → head xs ≡ some x → P x
  All-head P [] h e = absurd (cc)
  All-head P (y ∷ ys) {x} h e = let same : y ≡ x = cc in rw (← same) h.0

  -- The selected signal was loaded, has an allowed status, and had become available by the cutoff,
  -- the buffer included; its lineage is complete, and every feature of the lineage has a known value
  -- that was available at the time of the decision.
  pub select-WasKnown :
      (float : Float F) {signal : ComparableSignal F}
      → select_signal_for_decision float sources allowlist buffer_minutes signals cutoff
        ≡ some signal
      → WasKnown signal
  unfolding select_signal_for_decision
  select-WasKnown float h =
      All-head WasKnown _
        (All-sort_by (comes_first float) WasKnown _ (filter-WasKnown signals (λ s e. e))) h
