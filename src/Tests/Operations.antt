-- ===== src/Tests/Operations.antt =====
-- The properties of the daily workflow and of the market calendar, at concrete inputs.
use ai_native_hedge_fund_ch.Prelude.{
  Elem, HasDistinctKeys, inl, inr, ℕ, zero, suc, ◌+◌, ◌*◌, ◌/◌, ◌%◌, ◌≤◌, String, ◌≡◌, refl, ◌↔◌,
  false, none, some, List, [], ◌∷◌, Result, ok, err, is_some, All, arith, str_eq, if◌then◌else◌,
}
use ai_native_hedge_fund_ch.Orchestration.Steps.{succeeded, DailyStepSpec, StepExecutionOutcome}
use ai_native_hedge_fund_ch.Orchestration.Steps.{dedupe}
use ai_native_hedge_fund_ch.Orchestration.Steps.Dedupe.{dedupe_lem}
use ai_native_hedge_fund_ch.Orchestration.Registry.{daily_step_specs}
use ai_native_hedge_fund_ch.Orchestration.Workflow.{Registry, run_workflow, close}
use ai_native_hedge_fund_ch.Orchestration.Workflow.Clean.{RunsClean, workflow_succeeded_when}
use ai_native_hedge_fund_ch.Orchestration.Workflow.Progress.{Trace, workflow_trace}
use ai_native_hedge_fund_ch.Timing.Calendar.{
  LocalTime, MarketCalendarEvent, Zone, holiday, regular, next_us_equities_open, classify_local,
  override_for_date, regular_session_bounds, opens_on, is_weekend, weekday, local_leb, open_time,
  close_time, is_session_override,
}
use ai_native_hedge_fund_ch.Timing.NextOpen.{IsFirstOpen, next_open_first, found_open_is_regular}

-- The executors count their calls; the first attempt of the first step raises, and so does the
-- fifth step.
execute : Registry ℕ
execute step_name calls = (reply, calls + 1)
  where
    reply : Result StepExecutionOutcome
    reply = if str_eq step_name "portfolio_workflow" then err "no signals" else elim calls [
      | zero ↦ err "busy"
      | suc n ↦ ok (record {
        status = succeeded;
        notes = [];
        child_run_summary_ids = [];
        produced_artifact_ids = step_name ∷ [];
        manual_intervention_requirement = none;
        stop_workflow = false;
      })
    ]

retry_note : DailyStepSpec → ℕ → String → String
retry_note spec attempt_index error = error

policies_positive : All (λ spec. 1 ≤ spec.retry_policy.max_attempts) daily_step_specs
unfolding daily_step_specs
policies_positive = ground arith

workflow_succeeded_when_example :
    ((close (run_workflow execute retry_note daily_step_specs 0 []).run).status ≡ succeeded)
    ↔ RunsClean execute daily_step_specs 0
workflow_succeeded_when_example =
    workflow_succeeded_when execute retry_note daily_step_specs 0 [] policies_positive

workflow_trace_example :
    Trace daily_step_specs
      (run_workflow execute retry_note daily_step_specs 0 []).run_steps
      (is_some (run_workflow execute retry_note daily_step_specs 0 []).run.workflow_status)
workflow_trace_example = workflow_trace execute retry_note daily_step_specs 0 [] policies_positive

-- A zone without offset, for the tests.
abbrev pub utc : Zone
utc = record {
  to_local = λ instant. record { date = instant / 86400; time = instant % 86400 };
  to_utc = λ wall. wall.date * 86400 + wall.time;
}

-- A holiday on the Monday of the ordinal 8.
abbrev pub overrides : List MarketCalendarEvent
overrides =
    record {
      event_kind = holiday;
      session_date = 8;
      open_at = none;
      close_at = none;
      session_kind = none;
    }
    ∷ []

-- Friday, the ordinal 5, at 10:00.
abbrev pub friday : ℕ
friday = 5 * 86400 + 36000

next_open_first_example :
    (found : LocalTime) × (next_us_equities_open utc friday overrides ≡ some (utc.to_utc found))
    × IsFirstOpen utc overrides (utc.to_local friday) (utc.to_local friday).date found
next_open_first_example = next_open_first utc friday overrides

-- The open of Monday, the ordinal 1, found from its early morning on.
abbrev monday_open : LocalTime
monday_open = record { date = 1; time = 34200 }

abbrev early : LocalTime
early = record { date = 1; time = 10000 }

monday_first : IsFirstOpen utc overrides early 1 monday_open
unfolding opens_on is_weekend weekday local_leb override_for_date regular_session_bounds open_time
monday_first = record {
  bound = omega arith;
  is_open = refl;
  time = refl;
  first = λ date low high. absurd (omega arith);
}

monday_plain : is_session_override (override_for_date overrides 1) ≡ false
unfolding override_for_date
monday_plain = refl

monday_close : 34200 ≤ (regular_session_bounds utc 1 (override_for_date overrides 1)).close_at.time
unfolding override_for_date regular_session_bounds close_time
monday_close = omega arith

found_open_is_regular_example : (classify_local utc overrides monday_open).session_kind ≡ regular
found_open_is_regular_example =
    found_open_is_regular utc overrides early monday_open monday_first monday_plain (omega arith)
      monday_close

dedupe_lem_example :
    Elem "a" (dedupe ("b" ∷ "a" ∷ "" ∷ "a" ∷ []))
    × HasDistinctKeys (λ s. s) (dedupe ("b" ∷ "a" ∷ "" ∷ "a" ∷ []))
dedupe_lem_example = dedupe_lem ("b" ∷ "a" ∷ "" ∷ "a" ∷ []) "a" refl (inr (inl refl))
