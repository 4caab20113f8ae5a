-- ===== src/Orchestration/Workflow/Progress.antt =====
-- How far the daily workflow gets: which steps run, how often, and which stay queued.
use ai_native_hedge_fund_ch.Prelude.{
  ℕ, zero, suc, ◌+◌, ◌≤◌, String, ◌≡◌, refl, Bool, true, false, Option, none, some, List, [], ◌∷◌,
  ◌&&◌, map, All, arith, Bool-cases, Result-cases, inl, inr, ltb, is_some,
}
use ai_native_hedge_fund_ch.Orchestration.Steps.{
  DailyStepSpec, StepExecutionOutcome, RunStep, Run, Pass, queued_step, run_after_success,
  on_success, on_retry, on_failure,
}
use ai_native_hedge_fund_ch.Orchestration.Workflow.{
  Registry, attempts, run_step, stops, run_steps, initial_run, run_workflow,
}

-- The step was attempted at least once and at most as often as its policy allows.
pub record IsRan (spec : DailyStepSpec) (step : RunStep) : Type 0 where
  pub name : step.step_name ≡ spec.step_name
  pub at_least_once : 1 ≤ step.attempt_count
  pub at_most : step.attempt_count ≤ spec.retry_policy.max_attempts

-- The steps ran in their order. Either all of them did, or the run stopped after one of them and
-- the rest is queued.
pub data Trace : List DailyStepSpec → List RunStep → Bool → Type 0 where
  all_ran : Trace [] [] false
  stopped :
      {spec : DailyStepSpec} {specs : List DailyStepSpec} {step : RunStep}
      → IsRan spec step
      → Trace (spec ∷ specs) (step ∷ map queued_step specs) true
  continued :
      {spec : DailyStepSpec} {specs : List DailyStepSpec} {step : RunStep}
      → {steps : List RunStep} {b : Bool} → IsRan spec step
      → Trace specs steps b
      → Trace (spec ∷ specs) (step ∷ steps) b

module _ {S : Type 0} (execute : Registry S)
    (retry_note : DailyStepSpec → ℕ → String → String) where
  -- Where a pass is after its attempts: the step ran, and the run stops exactly if it has a status.
  record IsPassed (spec : DailyStepSpec) (pass : Pass S) : Type 0 where
    pub ran : IsRan spec pass.step
    pub stops_iff : stops pass ≡ is_some pass.run.workflow_status

  success-IsPassed :
      (spec : DailyStepSpec) (k : ℕ) (outcome : StepExecutionOutcome) (world : S) (pass : Pass S)
      → pass.run.workflow_status ≡ none
      → pass.step.step_name ≡ spec.step_name
      → 1 ≤ k
      → k ≤ spec.retry_policy.max_attempts
      → IsPassed spec (on_success spec k outcome world pass)
  unfolding on_success run_after_success stops
  success-IsPassed spec k outcome world pass open_run name low high = record {
    ran = record { name = name; at_least_once = low; at_most = high };
    stops_iff = rw open_run (ground arith);
  }

  failure-IsPassed :
      (spec : DailyStepSpec) (k : ℕ) (error : String) (world : S) (pass : Pass S)
      → pass.step.step_name ≡ spec.step_name
      → 1 ≤ k
      → k ≤ spec.retry_policy.max_attempts
      → IsPassed spec (on_failure spec k error world pass)
  unfolding on_failure stops
  failure-IsPassed spec k error world pass name low high = record {
    ran = record { name = name; at_least_once = low; at_most = high };
    stops_iff = ground arith;
  }

  attempts-IsPassed :
      (spec : DailyStepSpec) (remaining k : ℕ) (pass : Pass S)
      → pass.run.workflow_status ≡ none
      → pass.step.step_name ≡ spec.step_name
      → 1 ≤ k
      → 1 ≤ remaining
      → k + remaining ≡ spec.retry_policy.max_attempts + 1
      → IsPassed spec (attempts execute retry_note spec remaining k pass)
  unfolding attempts
  attempts-IsPassed spec zero k pass open_run name low left total = absurd (omega arith)
  attempts-IsPassed spec (suc remaining) k pass open_run name low left total =
      let policy = spec.retry_policy in
      let reply = execute spec.step_name pass.run.world in
      elim (Result-cases reply.0) [
        | inl (outcome, e) ↦
            rw (attempts, e)
              (success-IsPassed spec k outcome reply.1 pass open_run name low (omega arith))
        | inr (error, e) ↦
            elim (Bool-cases (policy.automatic_retry_enabled && ltb k policy.max_attempts)) [
              | inl again ↦
                  let retried = on_retry spec k (retry_note spec k error) reply.1 pass in
                  rw (attempts, e, again)
                    (attempts-IsPassed spec remaining (suc k) retried (unfold on_retry in open_run)
                      (unfold on_retry in name) (omega arith) (ground arith) (omega arith))
              | inr final ↦
                  rw (attempts, e, final)
                    (failure-IsPassed spec k error reply.1 pass name low (omega arith))
            ]
      ]

  run_step-IsPassed :
      (spec : DailyStepSpec) (run : Run S)
      → run.workflow_status ≡ none
      → 1 ≤ spec.retry_policy.max_attempts
      → IsPassed spec (run_step execute retry_note spec run)
  unfolding run_step queued_step
  run_step-IsPassed spec run open_run positive =
      attempts-IsPassed spec spec.retry_policy.max_attempts 1 _ open_run refl (omega arith) positive
        (omega arith)

  none_of : {A : Type 0} (o : Option A) → is_some o ≡ false → o ≡ none
  none_of none h = refl
  none_of (some a) h = cc

  run_steps_trace :
      (specs : List DailyStepSpec) (run : Run S)
      → run.workflow_status ≡ none
      → All (λ spec. 1 ≤ spec.retry_policy.max_attempts) specs
      → let result = run_steps execute retry_note specs run in
        Trace specs result.run_steps (is_some result.run.workflow_status)
  unfolding run_steps
  run_steps_trace [] run open_run positive = rw open_run all_ran
  run_steps_trace (spec ∷ specs) run open_run positive =
      let pass = run_step execute retry_note spec run in
      let passed = run_step-IsPassed spec run open_run positive.0 in
      elim (Bool-cases (stops pass)) [
        | inl e ↦ rw e (rw (← passed.stops_iff) (rw e (stopped passed.ran)))
        | inr e ↦ rw e (
            continued passed.ran
              (run_steps_trace specs pass.run (none_of _ (cc (e, passed.stops_iff))) positive.1))
      ]

  -- If every retry policy allows at least one attempt, then the steps run in their order, each at
  -- least once and at most as often as its policy allows, and the run has been given a status
  -- exactly if it stopped after some step, with every later step still queued; without one, all
  -- steps ran.
  pub workflow_trace :
      (specs : List DailyStepSpec) (world : S) (notes : List String)
      → All (λ spec. 1 ≤ spec.retry_policy.max_attempts) specs
      → let result = run_workflow execute retry_note specs world notes in
        Trace specs result.run_steps (is_some result.run.workflow_status)
  unfolding run_workflow
  workflow_trace specs world notes positive =
      run_steps_trace specs _ (unfold initial_run in refl) positive
