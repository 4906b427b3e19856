-- ===== src/Scenario/Loop.antt =====
-- The executor of plan-executor.service.ts on the small run.
use qa_agent.Prelude.{ℕ, refl, ◌≡◌, some, Option, has_word}
use qa_agent.Effect.{Outcome, done, ◌>>=◌, pure, need, try_catch}
use qa_agent.Runner.{observe, check_all, check_one, condition_evaluations, plan_step}
use qa_agent.Runner.Versions.{IsVerdict}
use qa_agent.Policy
use qa_agent.Policy.{validate_destructive_text, looks_destructive}
use qa_agent.Network
use qa_agent.Recovery.{
  recover, try_actions, candidates, unique_actions, unique_from, changed, error_message, attempt_of,
  prepend, latest, observed, element_lines, observe_safely,
}
use qa_agent.Executor.{execute, run_steps, run_attempts, check_final, start}
use qa_agent.Executor.Result.{PlanExecutionResult}
use qa_agent.Executor.Ends.{execute-IsVerdict}
use qa_agent.Executor.Termination.{execute-Terminates, Decides}
use qa_agent.Executor.Attempt.{
  repeat_or_pass, retry_or_fail, check_business, recheck, after_recovery, check_post, perform,
  guard, resolve, resolve_otherwise, prepare, attempt, unprepared, result_of,
}
use qa_agent.Graph.Nodes.Act.{keep_extracted, settle_page, remember_action, audit_after}
use qa_agent.Scenario.{demo, json, config, plan}

abbrev demo_run : Outcome ℕ (Option PlanExecutionResult)
demo_run = execute demo json config 3 plan 0

abbrev result : Outcome ℕ (Option PlanExecutionResult) → PlanExecutionResult
result (done (some r) w) = r
result _ = result_of (start plan)

demo_returns : demo_run ≡ done (some (result demo_run)) 2
unfolding execute run_steps run_attempts check_final repeat_or_pass retry_or_fail check_business
    recheck after_recovery check_post perform guard resolve resolve_otherwise prepare attempt
    unprepared result_of observe check_all check_one condition_evaluations plan_step recover
    try_actions candidates unique_actions unique_from changed error_message attempt_of prepend
    latest observed element_lines observe_safely try_catch ◌>>=◌ pure need Policy.validate
    validate_destructive_text looks_destructive has_word Network.validate keep_extracted settle_page
    remember_action audit_after
demo_returns = refl

execute-Terminates_example :
    (turns : ℕ) × Decides demo json config (execute demo json config turns plan 0)
execute-Terminates_example = execute-Terminates demo json config plan 0

execute-IsVerdict_example : IsVerdict demo plan (result demo_run) 2
execute-IsVerdict_example =
    execute-IsVerdict demo json config 3 plan 0 (result demo_run) 2 demo_returns
