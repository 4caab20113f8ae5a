-- ===== src/Orchestration/Steps.antt =====
-- One step of the daily workflow: its policy, its record, and what an attempt does to the run.
pub mod Dedupe
use Prim.Native.String.{◌++◌ as append}
use ai_native_hedge_fund_ch.Prelude.{
  ℕ, String, Bool, true, false, Option, none, some, List, [], ◌∷◌, ◌++◌, ◌&&◌, not, map, ltb, ◌==◌,
  truthy, any, str_eq, Result, ok, raise_if, ◌>>◌, if◌then◌else◌,
}

pub data WorkflowStatus : Type 0 where
  queued running succeeded failed partial attention_required : WorkflowStatus

pub data RunFailureAction : Type 0 where
  fail_workflow attention_required_stop partial_continue : RunFailureAction

pub data PipelineEventType : Type 0 where
  run_completed run_failed attention_event : PipelineEventType

pub record RetryPolicy : Type 0 where
  pub max_attempts : ℕ
  pub automatic_retry_enabled : Bool
  pub retryable : Bool

-- The field bound of `RetryPolicy`, then `validate_retry_policy`.
unfoldable pub validate_retry_policy : RetryPolicy → Result RetryPolicy
validate_retry_policy p = do
  raise_if (ltb p.max_attempts 1) "max_attempts must be at least one."
  raise_if (not p.retryable && p.automatic_retry_enabled)
      "automatic_retry_enabled requires retryable=True."
  raise_if (not p.retryable && not (p.max_attempts == 1))
      "Non-retryable steps must use max_attempts=1."
  raise_if (p.automatic_retry_enabled && ltb p.max_attempts 2)
      "Automatic retries require max_attempts of at least 2."
  ok p

pub record DailyStepSpec : Type 0 where
  pub step_name : String
  pub retry_policy : RetryPolicy
  pub failure_action : RunFailureAction

-- What the executor of a step returns. The manual intervention is given by its gate reason.
pub record StepExecutionOutcome : Type 0 where
  pub status : WorkflowStatus
  pub notes : List String
  pub child_run_summary_ids : List String
  pub produced_artifact_ids : List String
  pub manual_intervention_requirement : Option String
  pub stop_workflow : Bool

pub record RunStep : Type 0 where
  pub step_name : String
  pub status : WorkflowStatus
  pub attempt_count : ℕ
  pub child_run_summary_ids : List String
  pub produced_artifact_ids : List String
  pub notes : List String
  pub manual_intervention_requirement : Option String

-- The record of one step in `_build_run_steps`.
unfoldable pub queued_step : DailyStepSpec → RunStep
queued_step spec = record {
  step_name = spec.step_name;
  status = queued;
  attempt_count = 0;
  child_run_summary_ids = [];
  produced_artifact_ids = [];
  notes = [];
  manual_intervention_requirement = none;
}

unfoldable pub dedupe_from : List String → List String → List String
dedupe_from seen [] = []
dedupe_from seen (value ∷ values) =
    if truthy value && not (any (λ other. str_eq other value) seen)
    then value ∷ dedupe_from (value ∷ seen) values
    else dedupe_from seen values

-- `_dedupe`
unfoldable pub dedupe : List String → List String
unfolding dedupe_from
dedupe values = dedupe_from [] values

-- The local variables of `run_daily_workflow`; `world` is the state that the executors share.
pub record Run (S : Type 0) : Type 0 where
  pub world : S
  pub child_run_summary_ids : List String
  pub produced_artifact_ids : List String
  pub workflow_notes : List String
  pub workflow_status : Option WorkflowStatus
  pub failure_messages : List String
  pub attention_reasons : List String
  pub final_event_type : PipelineEventType

-- The local variables of one pass of the loop over the steps.
pub record Pass (S : Type 0) : Type 0 where
  pub run : Run S
  pub step : RunStep
  pub outcome : Option StepExecutionOutcome
  pub step_error : Bool

abbrev pub is_attention : WorkflowStatus → Bool
is_attention attention_required = true
is_attention _ = false

abbrev pub reason_or : Option String → String → String
reason_or none otherwise = otherwise
reason_or (some reason) otherwise = reason

unfoldable pub attention_reason : DailyStepSpec → StepExecutionOutcome → String
attention_reason spec outcome =
    reason_or outcome.manual_intervention_requirement
      (append "Step `" (append spec.step_name "` requires operator attention."))

unfoldable pub failure_message : DailyStepSpec → String → String
failure_message spec error = append "Step `" (append spec.step_name (append "` failed: " error))

-- The statuses and the event of a failure, by the action of the step.
abbrev pub failed_step_status : RunFailureAction → WorkflowStatus
failed_step_status fail_workflow = failed
failed_step_status attention_required_stop = attention_required
failed_step_status partial_continue = failed

abbrev pub failed_workflow_status : RunFailureAction → WorkflowStatus
failed_workflow_status fail_workflow = failed
failed_workflow_status attention_required_stop = attention_required
failed_workflow_status partial_continue = partial

abbrev pub failed_event : RunFailureAction → PipelineEventType
failed_event fail_workflow = run_failed
failed_event attention_required_stop = attention_event
failed_event partial_continue = run_completed

abbrev pub failed_reasons : DailyStepSpec → RunFailureAction → List String → List String
failed_reasons spec attention_required_stop reasons =
    reasons ++ append "Step `" (append spec.step_name "` failed and needs operator attention.") ∷ []
failed_reasons spec _ reasons = reasons

abbrev pub failed_requirement : DailyStepSpec → RunFailureAction → Option String → Option String
failed_requirement spec attention_required_stop requirement =
    some (append "Step `" (append spec.step_name "` failed and requires operator attention."))
failed_requirement spec _ requirement = requirement

module _ {S : Type 0} (spec : DailyStepSpec) where
  -- What an outcome without an exception does to the run.
  unfoldable pub run_after_success : StepExecutionOutcome → S → Run S → Run S
  unfolding dedupe attention_reason
  run_after_success outcome world run = record run {
    world = world;
    child_run_summary_ids = dedupe (run.child_run_summary_ids ++ outcome.child_run_summary_ids);
    produced_artifact_ids = dedupe (run.produced_artifact_ids ++ outcome.produced_artifact_ids);
    workflow_notes =
        run.workflow_notes ++ map (λ note. append spec.step_name (append ":" note)) outcome.notes;
    attention_reasons =
        if is_attention outcome.status
        then run.attention_reasons ++ attention_reason spec outcome ∷ []
        else run.attention_reasons;
    workflow_status =
        if is_attention outcome.status && outcome.stop_workflow
        then some attention_required
        else run.workflow_status;
  }

  unfoldable pub on_success : ℕ → StepExecutionOutcome → S → Pass S → Pass S
  on_success attempt_index outcome world pass = record pass {
    run = run_after_success outcome world pass.run;
    outcome = some outcome;
    step = record pass.step {
      status = outcome.status;
      attempt_count = attempt_index;
      child_run_summary_ids = outcome.child_run_summary_ids;
      produced_artifact_ids = outcome.produced_artifact_ids;
      notes = pass.step.notes ++ outcome.notes;
      manual_intervention_requirement = outcome.manual_intervention_requirement;
    };
  }

  -- The exception is caught and the step is tried again; `retry_note` is the note about it.
  unfoldable pub on_retry : ℕ → String → S → Pass S → Pass S
  on_retry attempt_index retry_note world pass = record pass {
    run = record pass.run { world = world };
    step_error = true;
    step = record pass.step {
      attempt_count = attempt_index;
      notes = pass.step.notes ++ retry_note ∷ [];
    };
  }

  -- The exception is final.
  unfoldable pub on_failure : ℕ → String → S → Pass S → Pass S
  unfolding failure_message
  on_failure attempt_index error world pass =
      let action = spec.failure_action in
      record pass {
        step_error = true;
        run = record pass.run {
          world = world;
          failure_messages = pass.run.failure_messages ++ failure_message spec error ∷ [];
          workflow_notes = pass.run.workflow_notes ++ failure_message spec error ∷ [];
          workflow_status = some (failed_workflow_status action);
          final_event_type = failed_event action;
          attention_reasons = failed_reasons spec action pass.run.attention_reasons;
        };
        step = record pass.step {
          status = failed_step_status action;
          attempt_count = attempt_index;
          notes = pass.step.notes ++ failure_message spec error ∷ [];
          manual_intervention_requirement =
              failed_requirement spec action pass.step.manual_intervention_requirement;
        };
      }
