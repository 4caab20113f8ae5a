-- ===== src/Orchestration/Workflow/Clean.antt =====
-- When the daily workflow succeeds, told by what the executors answer.
use ai_native_hedge_fund_ch.Prelude.{
  ℕ, zero, suc, ◌+◌, ◌≤◌, String, ◌≡◌, ◌≢◌, Option-cases, and_true, lt_of_ltb, refl, ap, ◌∙◌, true,
  false, none, List, [], ◌∷◌, ◌++◌, ◌&&◌, All, not, arith, Bool-cases, inl, inr, ◌↔◌, ltb, ok, err,
  Result-cases,
}
use ai_native_hedge_fund_ch.Orchestration.Steps.{
  WorkflowStatus, succeeded, attention_required, DailyStepSpec, StepExecutionOutcome, Run, Pass,
  is_attention, attention_reason, failure_message, run_after_success, on_success, on_retry,
  on_failure,
}
use ai_native_hedge_fund_ch.Orchestration.Workflow.{
  Registry, attempts, run_step, stops, run_steps, initial_run, run_workflow, close,
}
use ai_native_hedge_fund_ch.Orchestration.Workflow.Status.{
  IsConsistent, is_success, run_step-IsConsistent, workflow_succeeded_iff,
}

module _ {S : Type 0} (execute : Registry S) where
  -- From its `k`-th attempt on, the executor of the step returns an outcome: at once, or it raises,
  -- the policy allows another attempt, and the next one returns. The worlds are those before and
  -- after.
  pub data Returns (spec : DailyStepSpec) : ℕ → S → StepExecutionOutcome → S → Type 0 where
    at_once :
        {k : ℕ} {world after : S} {outcome : StepExecutionOutcome}
        → execute spec.step_name world ≡ (ok outcome, after)
        → Returns spec k world outcome after
    retried :
        {k : ℕ} {world between after : S} {outcome : StepExecutionOutcome} (error : String)
        → execute spec.step_name world ≡ (err error, between)
        → spec.retry_policy.automatic_retry_enabled ≡ true
        → suc k ≤ spec.retry_policy.max_attempts
        → Returns spec (suc k) between outcome after
        → Returns spec k world outcome after

  -- Every step returns an outcome that does not ask for attention, each in the world that the one
  -- before it left.
  pub data RunsClean : List DailyStepSpec → S → Type 0 where
    finished : {world : S} → RunsClean [] world
    step :
        {spec : DailyStepSpec} {specs : List DailyStepSpec} {world : S}
        (outcome : StepExecutionOutcome)
        → (after : S) → Returns spec 1 world outcome after
        → outcome.status ≢ attention_required
        → RunsClean specs after
        → RunsClean (spec ∷ specs) world

-- No failure and no request for attention is recorded.
pub record IsClean {S : Type 0} (run : Run S) : Type 0 where
  pub no_failures : run.failure_messages ≡ []
  pub no_reasons : run.attention_reasons ≡ []

snoc_not_nil : (xs : List String) (x : String) → xs ++ x ∷ [] ≢ []
snoc_not_nil [] x = λ e. cc
snoc_not_nil (y ∷ xs) x = λ e. cc

attention_of : (status : WorkflowStatus) → is_attention status ≡ true → status ≡ attention_required
attention_of attention_required h = refl
attention_of status h = cc

module _ {S : Type 0} where
  -- An outcome leaves a clean run exactly if the run was clean and it asks for no attention.
  success-IsClean :
      (spec : DailyStepSpec) (outcome : StepExecutionOutcome) (world : S) (run : Run S)
      → IsClean (run_after_success spec outcome world run)
        ↔ (IsClean run × (outcome.status ≢ attention_required))
  unfolding run_after_success
  success-IsClean spec outcome world run = elim (Bool-cases (is_attention outcome.status)) [
    | inl e ↦ (
      λ h. absurd (
          snoc_not_nil run.attention_reasons (attention_reason spec outcome)
            (rw e at h.no_reasons)),
      λ h. absurd (h.1 (attention_of outcome.status e)),
    )
    | inr e ↦ (
      λ h. (
        record { no_failures = h.no_failures; no_reasons = rw e at h.no_reasons },
        λ a. cc (rw a at e),
      ),
      λ h. record { no_failures = h.0.no_failures; no_reasons = rw e h.0.no_reasons },
    )
  ]

  failure_not-IsClean :
      (spec : DailyStepSpec) (k : ℕ) (error : String) (world : S) (pass : Pass S)
      → ¬ IsClean (on_failure spec k error world pass).run
  unfolding on_failure
  failure_not-IsClean spec k error world pass h =
      snoc_not_nil pass.run.failure_messages (failure_message spec error) h.no_failures

  open_of_clean : (run : Run S) → IsConsistent run → IsClean run → run.workflow_status ≡ none
  open_of_clean run c h = elim (Option-cases run.workflow_status) [
    | inl e ↦ e
    | inr (status, e) ↦ absurd (
        cc (
          (and_true (not (is_success status)) false
            (rw (e, h.no_failures, h.no_reasons) at c.explained)).1))
  ]

  goes_on : (pass : Pass S) → IsConsistent pass.run → IsClean pass.run → stops pass ≡ false
  unfolding stops
  goes_on pass c h = rw (open_of_clean pass.run c h) refl

  module _ (execute : Registry S) (retry_note : DailyStepSpec → ℕ → String → String) where
    -- A clean run after the attempts was clean before, and the step returned without attention.
    attempts-IsClean :
        (spec : DailyStepSpec) (remaining k : ℕ) (pass : Pass S)
        → 1 ≤ remaining
        → k + remaining ≡ spec.retry_policy.max_attempts + 1
        → IsClean (attempts execute retry_note spec remaining k pass).run
        → IsClean pass.run
          × (outcome : StepExecutionOutcome) × Returns execute spec k pass.run.world outcome
              (attempts execute retry_note spec remaining k pass).run.world
          × (outcome.status ≢ attention_required)
    unfolding attempts on_success on_retry run_after_success
    attempts-IsClean spec zero k pass left total h = absurd (omega arith)
    attempts-IsClean spec (suc remaining) k pass left total h =
        let policy = spec.retry_policy in
        let reply = execute spec.step_name pass.run.world in
        elim (Result-cases reply.0) [
          | inl (outcome, e) ↦
              let (before, quiet) =
                (success-IsClean spec outcome reply.1 pass.run).0 (rw (attempts, e) at h) in
              rw (attempts, e) (before, outcome, at_once (ap (λ r. (r, reply.1)) e), quiet)
          | inr (error, e) ↦
              elim (Bool-cases (policy.automatic_retry_enabled && ltb k policy.max_attempts)) [
                | inl again ↦
                    let next = on_retry spec k (retry_note spec k error) reply.1 pass in
                    let (enabled, more) =
                      and_true policy.automatic_retry_enabled (ltb k policy.max_attempts) again in
                    let below = lt_of_ltb k policy.max_attempts more in
                    let (before, outcome, returns, quiet) =
                      attempts-IsClean spec remaining (suc k) next (omega arith) (omega arith)
                        (rw (attempts, e, again) at h) in
                    rw (attempts, e, again)
                      (
                        record { no_failures = before.no_failures; no_reasons = before.no_reasons },
                        outcome,
                        retried error (ap (λ r. (r, reply.1)) e) enabled below returns,
                        quiet,
                      )
                | inr final ↦
                    absurd
                      (failure_not-IsClean spec k error reply.1 pass (rw (attempts, e, final) at h))
              ]
        ]

    -- A step that returns without attention leaves a clean run clean, and its world.
    IsClean-attempts :
        (spec : DailyStepSpec) (remaining k : ℕ) (pass : Pass S) {world after : S}
        → {outcome : StepExecutionOutcome} → 1 ≤ remaining
        → k + remaining ≡ spec.retry_policy.max_attempts + 1
        → pass.run.world ≡ world
        → Returns execute spec k world outcome after
        → outcome.status ≢ attention_required
        → IsClean pass.run
        → IsClean (attempts execute retry_note spec remaining k pass).run
          × ((attempts execute retry_note spec remaining k pass).run.world ≡ after)
    unfolding attempts on_success on_retry run_after_success
    IsClean-attempts spec zero k pass left total same returns quiet h = absurd (omega arith)
    IsClean-attempts spec (suc remaining) k pass {outcome = outcome} left total same (at_once e)
          quiet h =
        let e1 = ap (λ world. execute spec.step_name world) same ∙ e in
        rw (attempts, e1) ((success-IsClean spec outcome _ pass.run).1 (h, quiet), ap (λ r. r.1) e1)
    IsClean-attempts spec (suc remaining) k pass left total same
          (retried error e enabled below returns) quiet h =
        let e1 = ap (λ world. execute spec.step_name world) same ∙ e in
        let again : spec.retry_policy.automatic_retry_enabled
              && ltb k spec.retry_policy.max_attempts
            ≡ true =
          ground arith in
        rw (attempts, e1, again)
          (IsClean-attempts spec remaining (suc k)
            (on_retry spec k (retry_note spec k error) (execute spec.step_name pass.run.world).1
              pass)
            (omega arith) (omega arith) (ap (λ r. r.1) e1) returns quiet
            (record { no_failures = h.no_failures; no_reasons = h.no_reasons }))

    -- A run that ends clean was clean, and every step of it returned without attention.
    run_steps-IsClean :
        (specs : List DailyStepSpec) (run : Run S)
        → All (λ spec. 1 ≤ spec.retry_policy.max_attempts) specs
        → IsConsistent run
        → IsClean (run_steps execute retry_note specs run).run
        → IsClean run × RunsClean execute specs run.world
    unfolding run_steps run_step
    run_steps-IsClean [] run positive c h = (h, finished)
    run_steps-IsClean (spec ∷ specs) run positive c h =
        let pass = run_step execute retry_note spec run in
        let after = run_step-IsConsistent execute retry_note spec run c in
        elim (Bool-cases (stops pass)) [
          | inl e ↦
              let clean : IsClean pass.run = rw e at h in absurd (cc (e, goes_on pass after clean))
          | inr e ↦
              let (clean, rest) = run_steps-IsClean specs pass.run positive.1 after (rw e at h) in
              let (before, outcome, returns, quiet) =
                attempts-IsClean spec spec.retry_policy.max_attempts 1 _ positive.0 (omega arith)
                  clean in
              (
                record { no_failures = before.no_failures; no_reasons = before.no_reasons },
                step outcome pass.run.world returns quiet rest,
              )
        ]

    IsClean-run_steps :
        (specs : List DailyStepSpec) (run : Run S)
        → All (λ spec. 1 ≤ spec.retry_policy.max_attempts) specs
        → IsConsistent run
        → IsClean run
        → RunsClean execute specs run.world
        → IsClean (run_steps execute retry_note specs run).run
    unfolding run_steps run_step
    IsClean-run_steps [] run positive c h steps = h
    IsClean-run_steps (spec ∷ specs) run positive c h (step outcome world returns quiet steps) =
        let pass = run_step execute retry_note spec run in
        let after = run_step-IsConsistent execute retry_note spec run c in
        let (clean, same) =
          IsClean-attempts spec spec.retry_policy.max_attempts 1 _ positive.0 (omega arith) refl
            returns quiet h in
        rw (goes_on pass after clean)
          (IsClean-run_steps specs pass.run positive.1 after clean (rw same steps))

    -- If every retry policy allows at least one attempt, then the daily workflow ends as SUCCEEDED
    -- exactly if each step in turn returns, at once or after exceptions that its policy retries, an
    -- outcome whose status is not ATTENTION_REQUIRED, whether or not that outcome asks to stop.
    pub workflow_succeeded_when :
        (specs : List DailyStepSpec) (world : S) (notes : List String)
        → All (λ spec. 1 ≤ spec.retry_policy.max_attempts) specs
        → ((close (run_workflow execute retry_note specs world notes).run).status ≡ succeeded)
          ↔ RunsClean execute specs world
    unfolding run_workflow initial_run
    workflow_succeeded_when specs world notes positive =
        let lists = workflow_succeeded_iff execute retry_note specs world notes in
        let start = initial_run world notes in
        let fresh : IsConsistent start = record { explained = refl } in
        (
          λ h.
              let (failures, reasons) = lists.0 h in
              (run_steps-IsClean specs start positive fresh
                (record { no_failures = failures; no_reasons = reasons })).1,
          λ steps.
              let ended =
                IsClean-run_steps specs start positive fresh
                  (record { no_failures = refl; no_reasons = refl }) steps in
              lists.1 (ended.no_failures, ended.no_reasons),
        )
