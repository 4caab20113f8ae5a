-- ===== src/Orchestration/Workflow/Status.antt =====
-- The status that the daily workflow ends with, and the lists that the run collects.
use ai_native_hedge_fund_ch.Prelude.{
  ℕ, zero, suc, String, ◌≡◌, refl, Bool, true, false, Option, none, some, List, [], ◌∷◌, ◌++◌, ◌&&◌,
  not, is_empty, arith, Bool-cases, inl, inr, ◌↔◌, ltb, Result-cases,
}
use ai_native_hedge_fund_ch.Orchestration.Steps.{
  WorkflowStatus, succeeded, DailyStepSpec, StepExecutionOutcome, Run, Pass, attention_reason,
  failure_message, run_after_success, on_success, on_retry, on_failure,
}
use ai_native_hedge_fund_ch.Orchestration.Workflow.{
  Registry, attempts, run_step, stops, run_steps, initial_run, run_workflow, close,
}

abbrev pub is_success : WorkflowStatus → Bool
is_success succeeded = true
is_success _ = false

-- Without a status no step has failed; a status is never a success, and has a reason.
abbrev status_explained : Option WorkflowStatus → List String → List String → Bool
status_explained none failures reasons = is_empty failures
status_explained (some status) failures reasons =
    not (is_success status) && not (is_empty failures && is_empty reasons)

is_empty-snoc : (xs : List String) (x : String) → is_empty (xs ++ x ∷ []) ≡ false
is_empty-snoc [] x = refl
is_empty-snoc (y ∷ xs) x = refl

module _ {S : Type 0} where
  pub record IsConsistent (run : Run S) : Type 0 where
    pub explained :
        status_explained run.workflow_status run.failure_messages run.attention_reasons ≡ true

  success-IsConsistent :
      (spec : DailyStepSpec) (outcome : StepExecutionOutcome) (world : S) (run : Run S)
      → IsConsistent run
      → IsConsistent (run_after_success spec outcome world run)
  unfolding run_after_success
  success-IsConsistent spec outcome world run c = record {
    explained =
        ground
          (arith, c.explained, is_empty-snoc run.attention_reasons (attention_reason spec outcome));
  }

  failure-IsConsistent :
      (spec : DailyStepSpec) (k : ℕ) (error : String) (world : S) (pass : Pass S)
      → IsConsistent (on_failure spec k error world pass).run
  unfolding on_failure
  failure-IsConsistent spec k error world pass = record {
    explained =
        ground (arith, is_empty-snoc pass.run.failure_messages (failure_message spec error));
  }

  module _ (execute : Registry S) (retry_note : DailyStepSpec → ℕ → String → String) where
    pub attempts-IsConsistent :
        (spec : DailyStepSpec) (remaining k : ℕ) (pass : Pass S)
        → IsConsistent pass.run
        → IsConsistent (attempts execute retry_note spec remaining k pass).run
    unfolding attempts on_success on_retry
    attempts-IsConsistent spec zero k pass c = c
    attempts-IsConsistent spec (suc remaining) k pass c =
        let policy = spec.retry_policy in
        let reply = execute spec.step_name pass.run.world in
        elim (Result-cases reply.0) [
          | inl (outcome, e) ↦
              rw (attempts, e) (success-IsConsistent spec outcome reply.1 pass.run c)
          | inr (error, e) ↦
              elim (Bool-cases (policy.automatic_retry_enabled && ltb k policy.max_attempts)) [
                | inl again ↦
                    rw (attempts, e, again)
                      (attempts-IsConsistent spec remaining (suc k)
                        (on_retry spec k (retry_note spec k error) reply.1 pass)
                        (record { explained = c.explained }))
                | inr final ↦
                    rw (attempts, e, final) (failure-IsConsistent spec k error reply.1 pass)
              ]
        ]

    pub run_step-IsConsistent :
        (spec : DailyStepSpec) (run : Run S)
        → IsConsistent run
        → IsConsistent (run_step execute retry_note spec run).run
    unfolding run_step
    run_step-IsConsistent spec run c =
        attempts-IsConsistent spec spec.retry_policy.max_attempts 1 _ c

    run_steps-IsConsistent :
        (specs : List DailyStepSpec) (run : Run S)
        → IsConsistent run
        → IsConsistent (run_steps execute retry_note specs run).run
    unfolding run_steps
    run_steps-IsConsistent [] run c = c
    run_steps-IsConsistent (spec ∷ specs) run c =
        let pass = run_step execute retry_note spec run in
        let after = run_step-IsConsistent spec run c in
        elim (Bool-cases (stops pass)) [
          | inl e ↦ rw e after
          | inr e ↦ rw e (run_steps-IsConsistent specs pass.run after)
        ]

    close_lem :
        (run : Run S)
        → IsConsistent run
        → ((close run).status ≡ succeeded)
          ↔ ((run.failure_messages ≡ []) × (run.attention_reasons ≡ []))
    unfolding close
    close_lem run c = (λ h. ground (arith, c.explained), λ h. ground (arith, c.explained))

    -- The status in terms of the lists that the run collects.
    pub workflow_succeeded_iff :
        (specs : List DailyStepSpec) (world : S) (notes : List String)
        → let run = (run_workflow execute retry_note specs world notes).run in
          ((close run).status ≡ succeeded)
          ↔ ((run.failure_messages ≡ []) × (run.attention_reasons ≡ []))
    unfolding run_workflow
    workflow_succeeded_iff specs world notes = close_lem _ (
        run_steps-IsConsistent specs (initial_run world notes)
          (record { explained = unfold initial_run in refl }))
