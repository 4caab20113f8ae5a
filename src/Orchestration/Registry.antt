-- ===== src/Orchestration/Registry.antt =====
-- `DAILY_STEP_SPECS` of services/daily_orchestration/definitions.py.
use ai_native_hedge_fund_ch.Prelude.{String, true, false, List, [], ◌∷◌}
use ai_native_hedge_fund_ch.Orchestration.Steps.{
  DailyStepSpec, RetryPolicy, RunFailureAction, fail_workflow, attention_required_stop,
  partial_continue,
}

-- Two automatic attempts, or one.
abbrev retried : RetryPolicy
retried = record { max_attempts = 2; automatic_retry_enabled = true; retryable = true }

abbrev tried_once : RetryPolicy
tried_once = record { max_attempts = 1; automatic_retry_enabled = false; retryable = false }

abbrev step_spec : String → RetryPolicy → RunFailureAction → DailyStepSpec
step_spec step_name retry_policy failure_action = record {
  step_name = step_name;
  retry_policy = retry_policy;
  failure_action = failure_action;
}

unfoldable pub daily_step_specs : List DailyStepSpec
daily_step_specs =
    step_spec "fixture_refresh_and_normalization" retried fail_workflow
    ∷ step_spec "evidence_extraction" retried fail_workflow
    ∷ step_spec "research_workflow" tried_once fail_workflow
    ∷ step_spec "feature_signal_pipeline" tried_once fail_workflow
    ∷ step_spec "portfolio_workflow" tried_once fail_workflow
    ∷ step_spec "review_queue_sync" tried_once attention_required_stop
    ∷ step_spec "paper_trade_candidate_generation" tried_once attention_required_stop
    ∷ step_spec "operations_summary" retried partial_continue
    ∷ []
