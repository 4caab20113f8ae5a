-- ===== src/Backtesting/Signals.antt =====
-- Which signal a backtest decision may use: `_select_signal_for_decision` and the checks it makes.
pub mod Visible
use ai_native_hedge_fund_ch.Prelude.{
  ℕ, String, Bool, true, false, Option, none, some, List, [], ◌∷◌, ◌++◌, ◌&&◌, ◌||◌, not, any, all,
  filter, is_empty, is_some, leb, ltb, ◌==◌, str_eq, str_lt, sort_by, insert_by, if◌then◌else◌,
}
use ai_native_hedge_fund_ch.PyFloat.{Float}
use ai_native_hedge_fund_ch.Schemas.Enums.{SignalStatus, ResearchStance}
use ai_native_hedge_fund_ch.Timing.Availability.{
  AvailabilityWindow, DecisionCutoff, is_available_by,
}

pub data StrategyFamily : Type 0 where
  naive_baseline price_only_baseline text_only_candidate_baseline combined_baseline : StrategyFamily

-- What a `Signal` and a `StrategyVariantSignal` record of their sources.
pub data Lineage : Type 0 where
  research : List String → List String → Lineage
  variant : StrategyFamily → List String → List String → Lineage

-- `ComparableSignal`; for a variant `signal_id` is `strategy_variant_signal_id`.
pub record ComparableSignal (F : Type 0) : Type 0 where
  pub signal_id : String
  pub status : SignalStatus
  pub stance : ResearchStance
  pub primary_score : F
  pub effective_at : ℕ
  pub availability_window : Option AvailabilityWindow
  pub lineage : Lineage

-- The dictionaries are functions: the feature identifiers of a research signal's lineage, and the
-- time from which a feature's value is available.
pub record SignalSources : Type 0 where
  pub research_signals_by_id : String → Option (List String)
  pub features_by_id : String → Option ℕ

abbrev status_code : SignalStatus → ℕ
status_code SignalStatus.candidate = 0
status_code SignalStatus.approved = 1
status_code SignalStatus.rejected = 2
status_code SignalStatus.expired = 3

-- `signal.status in config.signal_status_allowlist`
abbrev pub is_allowed : List SignalStatus → SignalStatus → Bool
is_allowed allowlist status = any (λ s. status_code s == status_code status) allowlist

abbrev needs_source : StrategyFamily → Bool
needs_source text_only_candidate_baseline = true
needs_source combined_baseline = true
needs_source _ = false

-- `list(dict.fromkeys(ids))`
unfoldable pub unique : List String → List String → List String
unique seen [] = []
unique seen (x ∷ xs) =
    let further = unique (x ∷ seen) xs in
    let same = unique seen xs in if any (λ y. str_eq x y) seen then same else x ∷ further

module _ (sources : SignalSources) where
  abbrev features_of_source : String → List String
  features_of_source source_signal_id = elim (sources.research_signals_by_id source_signal_id) [
    | none ↦ []
    | some feature_ids ↦ feature_ids
  ]

  unfoldable pub features_of_sources : List String → List String
  features_of_sources [] = []
  features_of_sources (id ∷ ids) = features_of_source id ++ features_of_sources ids

  -- `_signal_feature_ids`
  unfoldable pub signal_feature_ids : Lineage → List String
  unfolding unique features_of_sources
  signal_feature_ids (research feature_ids evidence_ids) = feature_ids
  signal_feature_ids (variant family snapshot_ids source_signal_ids) =
      unique [] (features_of_sources source_signal_ids)

  -- The part of `_validate_comparable_signal` on the lineage itself.
  unfoldable pub is_traceable : Lineage → Bool
  is_traceable (research feature_ids evidence_ids) =
      not (is_empty feature_ids) && not (is_empty evidence_ids)
  is_traceable (variant family snapshot_ids source_signal_ids) =
      not (is_empty snapshot_ids)
      && (not (needs_source family && is_empty source_signal_ids)
          && all (λ id. is_some (sources.research_signals_by_id id)) source_signal_ids)

  -- The feature is known, and its value is available at the decision.
  abbrev pub is_feature_visible : ℕ → String → Bool
  is_feature_visible decision_time feature_id = elim (sources.features_by_id feature_id) [
    | none ↦ false
    | some available_at ↦ leb available_at decision_time
  ]

  -- `_validate_comparable_signal`
  unfoldable pub validate_comparable_signal : ℕ → Lineage → Bool
  unfolding is_traceable signal_feature_ids
  validate_comparable_signal decision_time lineage =
      is_traceable lineage && all (is_feature_visible decision_time) (signal_feature_ids lineage)

abbrev or_zero : Option ℕ → ℕ
or_zero none = 0
or_zero (some minutes) = minutes

abbrev is_visible : Option ℕ → DecisionCutoff → Option AvailabilityWindow → Bool
is_visible buffer_minutes cutoff none = false
is_visible buffer_minutes cutoff (some window) =
    is_available_by window cutoff (or_zero buffer_minutes)

module _ {F : Type 0} (sources : SignalSources) (allowlist : List SignalStatus)
    (buffer_minutes : Option ℕ) where
  -- The guards of the loop.
  unfoldable pub is_eligible : DecisionCutoff → ComparableSignal F → Bool
  unfolding is_available_by validate_comparable_signal
  is_eligible cutoff signal =
      is_allowed allowlist signal.status
      && (is_visible buffer_minutes cutoff signal.availability_window
          && validate_comparable_signal sources cutoff.decision_time signal.lineage)

  -- The signals that reach `timing_safe_signal_ids`.
  abbrev pub is_timing_safe : ComparableSignal F → Bool
  is_timing_safe signal = is_allowed allowlist signal.status && is_some signal.availability_window

  -- `_signal_availability_window`: the signals without a window get an anomaly, once.
  unfoldable pub record_anomalies : List String → List (ComparableSignal F) → List String
  record_anomalies known [] = known
  record_anomalies known (signal ∷ signals) =
      record_anomalies
        (if is_allowed allowlist signal.status
            && (not (is_some signal.availability_window)
                && not (any (λ id. str_eq signal.signal_id id) known))
          then known ++ signal.signal_id ∷ []
          else known)
        signals

abbrev pub head : {A : Type 0} → List A → Option A
head [] = none
head (x ∷ xs) = some x

module _ {F : Type 0} (float : Float F) where
  -- The later signal first, then the stronger one, then the smaller identifier.
  unfoldable pub comes_first : ComparableSignal F → ComparableSignal F → Bool
  comes_first a b =
      if not (a.effective_at == b.effective_at)
      then ltb b.effective_at a.effective_at
      else if not (float.eq (float.magnitude a.primary_score) (float.magnitude b.primary_score))
      then float.gt (float.magnitude a.primary_score) (float.magnitude b.primary_score)
      else str_lt a.signal_id b.signal_id

  -- `_select_signal_for_decision`
  unfoldable pub select_signal_for_decision :
      SignalSources
      → List SignalStatus
      → Option ℕ
      → List (ComparableSignal F)
      → DecisionCutoff
      → Option (ComparableSignal F)
  unfolding sort_by insert_by comes_first is_eligible
  select_signal_for_decision sources allowlist buffer_minutes signals cutoff =
      head
        (sort_by comes_first (filter (is_eligible sources allowlist buffer_minutes cutoff) signals))
