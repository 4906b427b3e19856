-- ===== src/Graph/Nodes/Settle.antt =====
-- The nodes that close a step or the run: replan, advance and finalAssertions.
pub mod Frame
use qa_agent.Prelude.{
  ℕ, ◌+◌, String, Bool, true, false, ◌||◌, List, [], ◌∷◌, ◌++◌, Option, none, some, last?,
  if◌then◌else◌, or_else,
}
use qa_agent.Domain.Action.{QaAction, ActionBody}
use qa_agent.Domain.Plan.{
  ExecutionStep, ExecutionPlan, PlanActionBody, PlanCondition, ReplanReason, StepFailurePolicy,
}
use qa_agent.Domain.Config.{RunConfig}
use qa_agent.Domain.Observation.{ScreenObservation, BoundExpected}
use qa_agent.Domain.Run.{AssertionResult, QaStep, TelemetryType}
use qa_agent.Effect.{Eff, Outcome, done, threw, interrupted, ◌>>=◌, ◌>>◌, pure, need}
use qa_agent.Plan.Schema.{Stringify}
use qa_agent.Ports.{Ports}
use qa_agent.Runner.{Replan, try_replan, check_all, plan_step}
use qa_agent.Graph.State.{State}
use qa_agent.Graph.Nodes.Act.{step_at, event}
use qa_agent.Graph.Nodes.Check.{first_or}

-- `lastValidation?.ok === false`
abbrev replan_reason : Option AssertionResult → ReplanReason
replan_reason none = ReplanReason.precondition_failed
replan_reason (some v) =
    if v.ok then ReplanReason.precondition_failed else ReplanReason.assertion_failed

-- `lastValidation?.actual ?? failedMessage ?? 'replan triggered'`
abbrev replan_message : Option AssertionResult → Option String → String
replan_message none failed = or_else failed "replan triggered"
replan_message (some v) failed = or_else v.actual (or_else failed "replan triggered")

-- The step that stands for the assertions of the plan.
abbrev pub assertions_step : ExecutionPlan → ExecutionStep
assertions_step plan = record {
  id = "PLAN_ASSERTIONS";
  scenario_id = none;
  task_id = none;
  description = "Final business assertions";
  preconditions = [];
  action = record {
    body = PlanActionBody.wait_for_stable none;
    reason = "final business assertion check";
  };
  postconditions = plan.assertions;
  assertions = [];
  on_failure = StepFailurePolicy.block;
  max_attempts = none;
  repeat_until = none;
  max_iterations = none;
  is_fallback = none;
}

abbrev pub wait_action : String → QaAction
wait_action reason = record { body = ActionBody.wait_for_stable (some 1000); reason = reason }

module _ (ports : Ports) where
  open ports use {
    World, Snapshot, browser_observe, rebuild_locators, runtime_state, bound_condition,
  }

  -- The state after a replan: the patched plan, or the end of the run.
  pub replanned :
      State Snapshot → ScreenObservation → String → Option ExecutionPlan → State Snapshot
  replanned s before message (some plan) = record s {
    current_plan = plan;
    replans = s.replans + 1;
    patched_step = true;
    passed = true;
  }
  replanned s before message none = record s {
    ok = false;
    failed_step = last? s.steps;
    failed_observation = some before;
    failed_message = some message;
    done = true;
  }

  module _ (json : Stringify) (config : RunConfig) where
    unfoldable pub replan_node : State Snapshot → Eff World (State Snapshot)
    unfolding replanned
    replan_node s = do
      step ← step_at s
      before ← need s.before
      let message = replan_message s.last_validation s.failed_message
      r ←
          try_replan ports json config s.current_plan step before (replan_reason s.last_validation)
            message s.replans
      pure (
          replanned
            (record s {
              patch_history = s.patch_history ++ r.history;
              locator_telemetry = s.locator_telemetry ++ (event step TelemetryType.replan ∷ []);
            })
            before message r.plan)

  unfoldable pub advance_node : State Snapshot → Eff World (State Snapshot)
  advance_node s =
      if s.patched_step || s.repeat_step
      then pure (record s { patched_step = false; repeat_step = false; passed = false })
      else pure (record s { step_index = s.step_index + 1; passed = false })

  -- The end of a run whose final assertions fail.
  final_failure : State Snapshot → ScreenObservation → AssertionResult → Eff World (State Snapshot)
  final_failure s obs r = do
    expected ←
        bound_condition (first_or s.current_plan.assertions PlanCondition.no_console_errors) obs
    let qa_step =
        plan_step (assertions_step s.current_plan) obs
          (wait_action "final business assertion failed") expected r none
          (some "business assertion failed")
    pure (record s {
      ok = false;
      failed_step = some qa_step;
      failed_observation = some obs;
      failed_message = some (or_else r.actual "business assertion failed");
      steps = s.steps ++ (qa_step ∷ []);
    })

  unfoldable pub final_assertions_node : State Snapshot → Eff World (State Snapshot)
  unfolding final_failure
  final_assertions_node s = do
    obs ← browser_observe
    rebuild_locators obs
    final ← runtime_state obs s.current_plan.assertions
    r ← check_all ports s.current_plan.assertions obs (some final) (some final)
    if r.ok then pure (record s { ok = true }) else final_failure s obs r
