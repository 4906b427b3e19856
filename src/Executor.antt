-- ===== src/Executor.antt =====
-- src/application/services/plan-executor.service.ts: the loop that executes a plan.
pub mod Result
pub mod Attempt
pub mod Ends
pub mod Termination
use qa_agent.Prelude.{
  ℕ, zero, suc, ◌+◌, String, Bool, true, false, List, [], ◌∷◌, ◌++◌, Option, none, some, get_elem?,
  or_else, if◌then◌else◌,
}
use qa_agent.Domain.Plan.{ExecutionStep, ExecutionPlan, PlanCondition}
use qa_agent.Domain.Config.{RunConfig}
use qa_agent.Effect.{Eff, Outcome, done, threw, interrupted, ◌>>=◌, ◌>>◌, pure}
use qa_agent.Plan.Schema.{Stringify}
use qa_agent.Ports.{Ports}
use qa_agent.Runner.{check_all, plan_step}
use qa_agent.Graph.Nodes.Check.{first_or}
use qa_agent.Graph.Nodes.Settle.{assertions_step, wait_action}
use qa_agent.Executor.Result.{PlanExecutionResult}
use qa_agent.Executor.Attempt.{Loop, AttemptEnd, result_of, fail_new, attempt}

-- The variables at the start.
abbrev pub start : ExecutionPlan → Loop
start plan = record {
  current_plan = plan;
  step_index = 0;
  replans = 0;
  iterations = [];
  steps = [];
  attempts = [];
  warnings = [];
  patch_history = [];
  evaluations = [];
  locator_telemetry = [];
}

-- How the attempts at a step end: the step is done, is to be done again, or is another one; or the
-- execution returns.
pub data StepEnd : Type 0 where
  advances : Loop → StepEnd
  repeats : Loop → StepEnd
  patches : Loop → StepEnd
  returns : PlanExecutionResult → StepEnd

-- `if (!passed) return …`
pub exhausted : Loop → PlanExecutionResult
unfolding result_of
exhausted s = record (result_of s) {
  ok = false;
  failed_message = some "maxAttemptsPerStep exhausted";
}

module _ (ports : Ports) (json : Stringify) (config : RunConfig) where
  open ports use {World, browser_observe, rebuild_locators, runtime_state, bound_condition}

  -- The loop over the attempts, with the number of those that are left.
  unfoldable pub run_attempts : ℕ → ExecutionStep → Loop → Eff World StepEnd
  unfolding exhausted
  run_attempts zero step s = pure (StepEnd.returns (exhausted s))
  run_attempts (suc left) step s = attempt ports json config left step s >>= λ e. elim e [
    | AttemptEnd.passed s' ↦ pure (StepEnd.advances s')
    | AttemptEnd.repeated s' ↦ pure (StepEnd.repeats s')
    | AttemptEnd.patched s' ↦ pure (StepEnd.patches s')
    | AttemptEnd.failed s' ↦ run_attempts left step s'
    | AttemptEnd.ended r ↦ pure (StepEnd.returns r)
  ]

  -- The assertions of the plan that was given, once every step is done.
  unfoldable pub check_final : ExecutionPlan → Loop → Eff World PlanExecutionResult
  unfolding fail_new
  check_final plan s = do
    obs ← browser_observe
    rebuild_locators obs
    final ← runtime_state obs plan.assertions
    r ← check_all ports plan.assertions obs (some final) (some final)
    if r.ok then pure (result_of s) else (do
      expected ← bound_condition (first_or plan.assertions PlanCondition.no_console_errors) obs
      let qa_step =
          plan_step (assertions_step plan) obs (wait_action "final business assertion failed")
            expected r none (some "business assertion failed")
      pure (fail_new s qa_step obs (or_else r.actual "business assertion failed")))

  -- `step.maxAttempts ?? currentPlan.runtime.maxAttemptsPerStep`
  pub attempts_of : ExecutionStep → Loop → ℕ
  attempts_of step s = or_else step.max_attempts s.current_plan.runtime.max_attempts_per_step

  -- The loop over the steps, for so many turns: `none` where these are not enough.
  unfoldable pub run_steps : ℕ → ExecutionPlan → Loop → Eff World (Option PlanExecutionResult)
  unfolding attempts_of
  run_steps zero plan s = pure none
  run_steps (suc turns) plan s = elim (get_elem? s.current_plan.steps s.step_index) [
    | none ↦ (do r ← check_final plan s; pure (some r))
    | some step ↦ run_attempts (attempts_of step s) step s >>= λ e. elim e [
      | StepEnd.advances s' ↦ run_steps turns plan (record s' { step_index = s'.step_index + 1 })
      | StepEnd.repeats s' ↦ run_steps turns plan s'
      | StepEnd.patches s' ↦ run_steps turns plan s'
      | StepEnd.returns r ↦ pure (some r)
    ]
  ]

  unfoldable pub execute : ℕ → ExecutionPlan → Eff World (Option PlanExecutionResult)
  execute turns plan = run_steps turns plan (start plan)
