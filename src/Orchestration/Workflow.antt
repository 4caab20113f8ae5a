-- ===== src/Orchestration/Workflow.antt =====
-- `run_daily_workflow` of services/daily_orchestration/service.py: the loop over the steps.
pub mod Clean
pub mod Status
pub mod Progress
use ai_native_hedge_fund_ch.Prelude.{
  ℕ, zero, suc, String, Bool, true, false, Option, none, some, List, [], ◌∷◌, ◌++◌, ◌&&◌, ◌||◌, map,
  ltb, is_empty, Result, ok, err, if◌then◌else◌,
}
use ai_native_hedge_fund_ch.Orchestration.Steps.{
  WorkflowStatus, running, failed, partial, attention_required, succeeded, PipelineEventType,
  run_completed, attention_event, DailyStepSpec, StepExecutionOutcome, RunStep, Run, Pass,
  queued_step, on_success, on_retry, on_failure,
}

-- The registry of executors. An executor may raise, and it may change the shared state either way.
abbrev pub Registry : Type 0 → Type 0
Registry S = String → S → Result StepExecutionOutcome × S

pub record WorkflowResult (S : Type 0) : Type 0 where
  pub run : Run S
  pub run_steps : List RunStep

pub record DailyWorkflowOutcome : Type 0 where
  pub status : WorkflowStatus
  pub final_event_type : PipelineEventType

abbrev pub is_stopping : Option WorkflowStatus → Bool
is_stopping (some failed) = true
is_stopping (some partial) = true
is_stopping (some attention_required) = true
is_stopping _ = false

abbrev pub asks_to_stop : Option StepExecutionOutcome → Bool
asks_to_stop none = true
asks_to_stop (some outcome) = outcome.stop_workflow

-- The `break` at the end of the loop body.
unfoldable pub stops : {S : Type 0} → Pass S → Bool
stops pass = is_stopping pass.run.workflow_status && (asks_to_stop pass.outcome || pass.step_error)

unfoldable pub initial_run : {S : Type 0} → S → List String → Run S
initial_run world notes = record {
  world = world;
  child_run_summary_ids = [];
  produced_artifact_ids = [];
  workflow_notes = notes;
  workflow_status = none;
  failure_messages = [];
  attention_reasons = [];
  final_event_type = run_completed;
}

module _ {S : Type 0} (execute : Registry S)
    (retry_note : DailyStepSpec → ℕ → String → String) where
  -- The attempts from `attempt_index` on, of which `remaining` are left.
  unfoldable pub attempts : DailyStepSpec → ℕ → ℕ → Pass S → Pass S
  attempts spec zero attempt_index pass = pass
  attempts spec (suc remaining) attempt_index pass =
      let policy = spec.retry_policy in
      let reply = execute spec.step_name pass.run.world in
      elim reply.0 [
        | ok outcome ↦ on_success spec attempt_index outcome reply.1 pass
        | err error ↦
            let again =
              attempts spec remaining (suc attempt_index)
                (on_retry spec attempt_index (retry_note spec attempt_index error) reply.1 pass) in
            if policy.automatic_retry_enabled && ltb attempt_index policy.max_attempts
            then again
            else on_failure spec attempt_index error reply.1 pass
      ]

  -- The step is marked as running, then it is attempted.
  unfoldable pub run_step : DailyStepSpec → Run S → Pass S
  unfolding queued_step
  run_step spec run = attempts spec spec.retry_policy.max_attempts 1 (record {
    run = run;
    step = record (queued_step spec) { status = running };
    outcome = none;
    step_error = false;
  })

  -- The loop over the steps; those that are not reached stay queued.
  unfoldable pub run_steps : List DailyStepSpec → Run S → WorkflowResult S
  run_steps [] run = record { run = run; run_steps = [] }
  run_steps (spec ∷ specs) run =
      let pass = run_step spec run in
      let later = run_steps specs pass.run in
      if stops pass
      then record { run = pass.run; run_steps = pass.step ∷ map queued_step specs }
      else record { run = later.run; run_steps = pass.step ∷ later.run_steps }

  -- `run_daily_workflow`, up to its records.
  unfoldable pub run_workflow : List DailyStepSpec → S → List String → WorkflowResult S
  unfolding initial_run
  run_workflow specs world notes = run_steps specs (initial_run world notes)

-- The status and the event that the execution is closed with.
unfoldable pub close : {S : Type 0} → Run S → DailyWorkflowOutcome
close run = elim run.workflow_status [
  | some status ↦ record { status = status; final_event_type = run.final_event_type }
  | none ↦
      if is_empty run.attention_reasons
      then record { status = succeeded; final_event_type = run_completed }
      else record { status = attention_required; final_event_type = attention_event }
]

unfoldable pub final_message_for_status : WorkflowStatus → String
final_message_for_status succeeded = "Daily workflow completed successfully."
final_message_for_status attention_required =
    "Daily workflow completed but requires explicit operator attention."
final_message_for_status partial =
    "Daily workflow completed core steps but finished in a partial state."
final_message_for_status _ = "Daily workflow failed."
