-- ===== src/SignalArbitration/Conflicts.antt =====
-- `detect_signal_conflicts`: disagreements between the candidates, and scores without support.
use ai_native_hedge_fund_ch.Prelude.{
  ℕ, String, Bool, true, false, Option, none, some, List, [], ◌∷◌, ◌++◌, ◌&&◌, ◌||◌, not, any,
  filter, is_some, is_empty, ◌==◌, str_eq, str_lt, sorted_set, if◌then◌else◌,
}
use ai_native_hedge_fund_ch.PyFloat.{Float}
use ai_native_hedge_fund_ch.Schemas.Enums.{
  ResearchStance, EvidenceGrade, SignalStatus, DerivedArtifactValidationStatus, positive, negative,
  strong, moderate, weak, insufficient, validated, partially_validated, pending_validation,
  unvalidated, invalidated,
}
use ai_native_hedge_fund_ch.SignalArbitration.Calibration.{
  FreshnessState, fresh, aging, stale, unknown, ArbitrationCandidate, evidence_grade,
}

pub data SignalConflictKind : Type 0 where
  score_support_mismatch directional_disagreement freshness_mismatch duplicate_support_overlap :
      SignalConflictKind
  maturity_mismatch : SignalConflictKind

pub record SignalConflict : Type 0 where
  pub signal_conflict_id : String
  pub conflict_kind : SignalConflictKind
  pub signal_ids : List String
  pub blocking : Bool
  pub related_artifact_ids : List String

-- `_validation_rank`, `_signal_status_rank`, `_evidence_grade_rank` and `_freshness_rank`
unfoldable pub validation_rank : DerivedArtifactValidationStatus → ℕ
validation_rank validated = 0
validation_rank partially_validated = 1
validation_rank pending_validation = 2
validation_rank unvalidated = 3
validation_rank invalidated = 4

unfoldable pub signal_status_rank : SignalStatus → ℕ
signal_status_rank SignalStatus.approved = 0
signal_status_rank SignalStatus.candidate = 1
signal_status_rank SignalStatus.rejected = 2
signal_status_rank SignalStatus.expired = 3

unfoldable pub evidence_grade_rank : Option EvidenceGrade → ℕ
evidence_grade_rank (some strong) = 0
evidence_grade_rank (some moderate) = 1
evidence_grade_rank (some weak) = 2
evidence_grade_rank (some insufficient) = 3
evidence_grade_rank none = 4

unfoldable pub freshness_rank : FreshnessState → ℕ
freshness_rank fresh = 0
freshness_rank aging = 1
freshness_rank stale = 2
freshness_rank unknown = 3

-- `_stances_oppose`
unfoldable pub stances_oppose : ResearchStance → ResearchStance → Bool
stances_oppose positive negative = true
stances_oppose negative positive = true
stances_oppose _ _ = false

abbrev pub is_well_supported : Option EvidenceGrade → Bool
is_well_supported (some strong) = true
is_well_supported (some moderate) = true
is_well_supported _ = false

abbrev pub is_weakly_supported : Option EvidenceGrade → Bool
is_weakly_supported (some weak) = true
is_weakly_supported (some insufficient) = true
is_weakly_supported _ = false

abbrev is_unknown : FreshnessState → Bool
is_unknown unknown = true
is_unknown _ = false

abbrev pub is_member : String → List String → Bool
is_member x xs = any (λ y. str_eq x y) xs

-- `sorted([left, right])`
abbrev pub sorted_pair : String → String → List String
sorted_pair a b = if str_lt b a then b ∷ a ∷ [] else a ∷ b ∷ []

-- One conflict if the test holds.
abbrev conflict_if : Bool → SignalConflict → List SignalConflict
conflict_if test conflict = if test then conflict ∷ [] else []

module _ {F : Type 0} (float : Float F) (make_id : String → List String → String) where
  abbrev assessment_ids : ArbitrationCandidate F → List String
  assessment_ids c = elim c.evidence_assessment [
    | none ↦ []
    | some a ↦ a.evidence_assessment_id ∷ []
  ]

  unfoldable pub support_conflicts : List (ArbitrationCandidate F) → List SignalConflict
  support_conflicts [] = []
  support_conflicts (c ∷ cs) =
      conflict_if
        (float.at_least_half c.absolute_strength && is_weakly_supported (evidence_grade c))
        (record {
          signal_conflict_id = make_id "sconf" (c.signal.signal_id ∷ "score_support_mismatch" ∷ []);
          conflict_kind = score_support_mismatch;
          signal_ids = c.signal.signal_id ∷ [];
          blocking = false;
          related_artifact_ids = c.signal.signal_id ∷ assessment_ids c;
        })
      ++ support_conflicts cs

  -- The conflict of a pair: `kind` and `name` are its kind, and `extra` its further artifacts.
  unfoldable pub pair_conflict :
      ArbitrationCandidate F
      → ArbitrationCandidate F
      → SignalConflictKind
      → String
      → Bool
      → List String
      → SignalConflict
  pair_conflict left right kind name blocking extra =
      let signal_pair = sorted_pair left.signal.signal_id right.signal.signal_id in
      record {
        signal_conflict_id = make_id "sconf" (signal_pair ++ name ∷ []);
        conflict_kind = kind;
        signal_ids = signal_pair;
        blocking = blocking;
        related_artifact_ids = signal_pair ++ extra;
      }

  abbrev overlap : ArbitrationCandidate F → ArbitrationCandidate F → List String
  overlap left right = sorted_set (
      filter (λ x. is_member x right.signal.lineage_supporting_evidence_link_ids)
        left.signal.lineage_supporting_evidence_link_ids)

  -- The four tests on a pair, in the order of the code.
  unfoldable pub pair_conflicts :
      Option ℕ → ArbitrationCandidate F → ArbitrationCandidate F → List SignalConflict
  pair_conflicts as_of_time left right =
      conflict_if (stances_oppose left.signal.stance right.signal.stance) (
        pair_conflict left right directional_disagreement "directional_disagreement"
          (is_well_supported (evidence_grade left) && is_well_supported (evidence_grade right)) [])
      ++ (conflict_if
            (is_some as_of_time
              && (not (freshness_rank left.freshness_state == freshness_rank right.freshness_state)
                  && (not (is_unknown left.freshness_state || is_unknown right.freshness_state)
                      && (str_eq left.signal.signal_family right.signal.signal_family
                          || stances_oppose left.signal.stance right.signal.stance))))
            (pair_conflict left right freshness_mismatch "freshness_mismatch" false [])
          ++ (conflict_if (not (is_empty (overlap left right))) (
                pair_conflict left right duplicate_support_overlap "duplicate_support_overlap" false
                  (overlap left right))
              ++ conflict_if
                  (not (
                      signal_status_rank left.signal.status
                      == signal_status_rank right.signal.status)
                    || not (
                        validation_rank left.signal.validation_status
                        == validation_rank right.signal.validation_status))
                  (pair_conflict left right maturity_mismatch "maturity_mismatch" false [])))

  -- One candidate against all later ones.
  unfoldable pub conflicts_with :
      Option ℕ → ArbitrationCandidate F → List (ArbitrationCandidate F) → List SignalConflict
  conflicts_with as_of_time left [] = []
  conflicts_with as_of_time left (right ∷ rest) =
      pair_conflicts as_of_time left right ++ conflicts_with as_of_time left rest

  -- `combinations(candidates, 2)`
  unfoldable pub all_pair_conflicts : Option ℕ → List (ArbitrationCandidate F) → List SignalConflict
  all_pair_conflicts as_of_time [] = []
  all_pair_conflicts as_of_time (c ∷ cs) =
      conflicts_with as_of_time c cs ++ all_pair_conflicts as_of_time cs

  unfoldable pub detect_signal_conflicts :
      Option ℕ → List (ArbitrationCandidate F) → List SignalConflict
  detect_signal_conflicts as_of_time candidates =
      support_conflicts candidates ++ all_pair_conflicts as_of_time candidates
