-- ===== src/DataQuality.antt =====
-- libraries/schemas/data_quality.py and the rules of services/data_quality/rules.py. Texts of
-- messages, provenance of the records, storage the completeness ratio and the
-- identifiers of gates, checks, reports and related artifacts are left out; the identifiers
-- are taken as texts that are not empty.
pub mod Finalization
pub mod Judged
pub mod PaperTrades
pub mod Proposals
use ai_native_hedge_fund_ch.Prelude.{
  ℕ, String, Bool, true, false, Option, none, some, List, [], ◌∷◌, ◌++◌, map, filter, is_empty, any,
  length, not, ◌&&◌, ltb, truthy, is_some, find, Result, ok, raise_if, ◌>>=◌, ◌>>◌, if◌then◌else◌,
}
use ai_native_hedge_fund_ch.Schemas.Enums.{QualityDecision, pass, warn, refuse, quarantine}

pub data QualitySeverity : Type 0 where
  low medium high critical : QualitySeverity

pub data RefusalReason : Type 0 where
  missing_required_timestamp missing_provenance missing_entity_linkage invalid_review_state
        broken_signal_lineage incomplete_experiment_metadata missing_required_artifact
        structurally_invalid_output :
      RefusalReason

-- What the minimum-provenance rule reads of a provenance record.
pub record ProvenanceRecord : Type 0 where
  pub processing_time : Option ℕ
  pub transformation_name : Option String
  pub source_reference_ids : List String
  pub upstream_artifact_ids : List String

pub record DataQualityIssue : Type 0 where
  pub data_quality_issue_id : String
  pub severity : QualitySeverity
  pub blocking : Bool

pub record ContractViolation : Type 0 where
  pub contract_violation_id : String
  pub contract_name : String
  pub target_type : String
  pub target_id : String
  pub offending_field_paths : List String
  pub severity : QualitySeverity
  pub blocking : Bool
  pub refusal_reason : RefusalReason

pub record DataQualityCheck : Type 0 where
  pub check_code : String
  pub decision : QualityDecision
  pub severity : QualitySeverity
  pub data_quality_issue_ids : List String
  pub contract_violation_ids : List String

pub record InputCompletenessReport : Type 0 where
  pub required_fields : List String
  pub present_fields : List String
  pub missing_fields : List String
  pub decision : QualityDecision

pub record ValidationGate : Type 0 where
  pub gate_name : String
  pub target_id : String
  pub decision : QualityDecision
  pub refusal_reason : Option RefusalReason
  pub quarantined : Bool
  pub data_quality_issue_ids : List String
  pub contract_violation_ids : List String

pub record ValidationGateResult : Type 0 where
  pub validation_gate : ValidationGate
  pub data_quality_checks : List DataQualityCheck
  pub data_quality_issues : List DataQualityIssue
  pub contract_violations : List ContractViolation
  pub input_completeness_report : InputCompletenessReport

-- One required field: its name and whether it is there.
pub record CompletenessField : Type 0 where
  pub name : String
  pub present : Bool

-- `decision in {QualityDecision.REFUSE, QualityDecision.QUARANTINE}`
abbrev pub is_blocking_decision : QualityDecision → Bool
is_blocking_decision refuse = true
is_blocking_decision quarantine = true
is_blocking_decision _ = false

abbrev pub is_quarantine : QualityDecision → Bool
is_quarantine quarantine = true
is_quarantine _ = false

-- `ValidationGate.validate_gate`
unfoldable pub validate_gate : ValidationGate → Result ValidationGate
validate_gate gate =
    raise_if (is_blocking_decision gate.decision && not (is_some gate.refusal_reason))
      "refusal_reason is required for refuse and quarantine decisions."
    >> raise_if (is_quarantine gate.decision && not gate.quarantined)
        "quarantined must be true when decision is `quarantine`."
    >> raise_if (gate.quarantined && not (is_quarantine gate.decision))
        "quarantined may only be true when decision is `quarantine`."
    >> ok gate

-- `not provenance.transformation_name`
abbrev is_unnamed : Option String → Bool
is_unnamed none = true
is_unnamed (some name) = not (truthy name)

unfoldable pub provenance_failures : Bool → ProvenanceRecord → List String
provenance_failures require_lineage_link provenance =
    (if is_some provenance.processing_time then [] else "provenance.processing_time" ∷ [])
    ++ (if is_unnamed provenance.transformation_name
        then "provenance.transformation_name" ∷ []
        else [])
    ++ (if require_lineage_link
          && is_empty provenance.source_reference_ids
          && is_empty provenance.upstream_artifact_ids
        then "provenance.source_reference_ids_or_upstream_artifact_ids" ∷ []
        else [])

abbrev pub severity_rank : QualitySeverity → ℕ
severity_rank low = 1
severity_rank medium = 2
severity_rank high = 3
severity_rank critical = 4

highest_from : QualitySeverity → List QualitySeverity → QualitySeverity
highest_from highest [] = highest
highest_from highest (level ∷ levels) =
    highest_from (if ltb (severity_rank highest) (severity_rank level) then level else highest)
      levels

unfoldable pub highest_quality_severity : List QualitySeverity → QualitySeverity
unfolding highest_from
highest_quality_severity levels = highest_from low levels

unfoldable pub quality_decision_for_findings : List DataQualityIssue → ℕ → Bool → QualityDecision
quality_decision_for_findings issues blocking_violation_count quarantine_on_blocking =
    if ltb 0 blocking_violation_count
    then (if quarantine_on_blocking then quarantine else refuse)
    else if not (is_empty issues)
    then warn
    else pass

-- `completeness_lists` without the ratio, in a report.
unfoldable pub completeness_report :
    List CompletenessField → QualityDecision → InputCompletenessReport
completeness_report fields decision = record {
  required_fields = map (λ f. f.name) fields;
  present_fields = map (λ f. f.name) (filter (λ f. f.present) fields);
  missing_fields = map (λ f. f.name) (filter (λ f. not f.present) fields);
  decision = decision;
}

-- One entry of the `specs` of `_build_checks`.
pub record CheckSpec : Type 0 where
  pub check_code : String
  pub issues : List DataQualityIssue
  pub violations : List ContractViolation

unfoldable pub check_decision : Bool → CheckSpec → QualityDecision
check_decision quarantine_on_blocking spec =
    let blocking = any (λ v. v.blocking) spec.violations in
    if blocking && quarantine_on_blocking
    then quarantine
    else if blocking
    then refuse
    else if not (is_empty spec.issues && is_empty spec.violations)
    then warn
    else pass

-- The list of severities is never read when it is empty: its highest severity is then LOW.
unfoldable pub build_check : Bool → CheckSpec → DataQualityCheck
build_check quarantine_on_blocking spec =
    let levels = map (λ i. i.severity) spec.issues ++ map (λ v. v.severity) spec.violations in
    record {
      check_code = spec.check_code;
      decision = check_decision quarantine_on_blocking spec;
      severity = if is_empty levels then low else highest_quality_severity levels;
      data_quality_issue_ids = map (λ i. i.data_quality_issue_id) spec.issues;
      contract_violation_ids = map (λ v. v.contract_violation_id) spec.violations;
    }

-- `_build_checks`
abbrev pub build_checks : Bool → List CheckSpec → List DataQualityCheck
build_checks quarantine_on_blocking specs = map (build_check quarantine_on_blocking) specs

-- `[violation] if found else []`
abbrev pub when : Bool → ContractViolation → List ContractViolation
when true violation = violation ∷ []
when false violation = []

-- `next((violation.refusal_reason for violation in violations if violation.blocking), None)`
abbrev pub reason_of : Option ContractViolation → Option RefusalReason
reason_of none = none
reason_of (some violation) = some violation.refusal_reason

-- The arguments of `_finalize_gate_result` that the model keeps.
pub record GateFindings : Type 0 where
  pub gate_name : String
  pub target_id : String
  pub issues : List DataQualityIssue
  pub violations : List ContractViolation
  pub checks : List DataQualityCheck
  pub completeness_report : InputCompletenessReport
  pub quarantine_on_blocking : Bool

unfoldable pub gate_decision : GateFindings → QualityDecision
unfolding quality_decision_for_findings
gate_decision f =
    quality_decision_for_findings f.issues (length (filter (λ v. v.blocking) f.violations))
      f.quarantine_on_blocking

unfoldable pub gate_of : GateFindings → ValidationGate
gate_of f = record {
  gate_name = f.gate_name;
  target_id = f.target_id;
  decision = gate_decision f;
  refusal_reason = reason_of (find (λ v. v.blocking) f.violations);
  quarantined = is_quarantine (gate_decision f);
  data_quality_issue_ids = map (λ i. i.data_quality_issue_id) f.issues;
  contract_violation_ids = map (λ v. v.contract_violation_id) f.violations;
}

-- `_finalize_gate_result`: the validated gate; a refusal is an exception when the caller asks for it.
unfoldable pub finalize_gate_result : GateFindings → Bool → Result ValidationGateResult
finalize_gate_result f raise_on_failure = do
  gate ← validate_gate (gate_of f)
  done ←
      raise_if (is_blocking_decision gate.decision && raise_on_failure)
        "the gate blocked the target"
  ok (record {
    validation_gate = gate;
    data_quality_checks = f.checks;
    data_quality_issues = f.issues;
    contract_violations = f.violations;
    input_completeness_report = f.completeness_report;
  })
