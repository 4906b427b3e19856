-- ===== src/Graph/Nodes/Check.antt =====
-- The nodes that judge the step: postcheck, assertions and repeatUntil.
pub mod Frame
use qa_agent.Prelude.{
  ℕ, ◌+◌, ◌-◌, String, ◌<>◌, Bool, true, false, not, ◌&&◌, List, [], ◌∷◌, ◌++◌, Option, none, some,
  ltb, get_elem?, last?, is_some, if◌then◌else◌, or_else, show,
}
use qa_agent.Domain.Action.{QaAction, ActionBody, Key}
use qa_agent.Domain.Plan.{ExecutionStep, PlanCondition, StepFailurePolicy}
use qa_agent.Domain.Config.{RunConfig}
use qa_agent.Domain.Observation.{ScreenObservation, BoundExpected}
use qa_agent.Domain.Run.{AssertionResult, ExecResult, Phase, QaStep, ConditionEvaluation}
use qa_agent.Effect.{Eff, Outcome, done, threw, interrupted, ◌>>=◌, ◌>>◌, pure, raise, need}
use qa_agent.Ports.{Ports}
use qa_agent.Recovery.{RecoveryInput, Recovered, recover}
use qa_agent.Runner
use qa_agent.Runner.{check_all, condition_evaluations, plan_step}
use qa_agent.Graph.State.{State, iteration_of}
use qa_agent.Graph.Nodes.Act.{step_at}

-- `conditions[0] ?? …`
abbrev pub first_or : List PlanCondition → PlanCondition → PlanCondition
first_or [] d = d
first_or (c ∷ _) d = c

abbrev pub continues : StepFailurePolicy → Bool
continues StepFailurePolicy.continue_with_warning = true
continues _ = false

module _ (ports : Ports) where
  open ports use {World, Snapshot, runtime_state, bound_condition}

  -- The step that is pushed once the recovery is over.
  close_step :
      State Snapshot
      → ExecutionStep
      → ScreenObservation
      → AssertionResult
      → Eff World (State Snapshot)
  close_step s step after validation = do
    action ← need s.current_action
    expected ← bound_condition (first_or step.postconditions PlanCondition.no_console_errors) after
    pure (record s {
      last_validation = some validation;
      steps =
          s.steps
          ++ (plan_step step after action expected validation s.last_quiescence
                (if validation.ok then none else some "RECOVERY_EXHAUSTED")
              ∷ []);
    })

  -- The page is observed and checked again after a recovery that succeeded.
  check_again : State Snapshot → ExecutionStep → ScreenObservation → Eff World (State Snapshot)
  unfolding close_step
  check_again s step after = do
    obs ← Runner.observe ports step
    snapshot ← runtime_state obs step.postconditions
    validation ← check_all ports step.postconditions obs s.before_state (some snapshot)
    close_step s step after validation

  after_recovery :
      State Snapshot
      → ExecutionStep
      → ScreenObservation
      → AssertionResult
      → Recovered
      → Eff World (State Snapshot)
  unfolding check_again close_step
  after_recovery s step after post recovered =
      if recovered.ok
      then check_again s step after
      else if continues step.on_failure
      then pure (record s {
        last_validation = some post;
        warnings =
            s.warnings
            ++ (record { step_id = step.id; message = or_else post.actual "postcondition failed" }
                ∷ []);
        passed = true;
      })
      else close_step s step after post

  -- The state with the evaluations of a phase.
  evaluated : State Snapshot → List ConditionEvaluation → State Snapshot
  evaluated s items = record s { evaluations = s.evaluations ++ items }

  module _ (config : RunConfig) where
    -- The recovery pushes its attempts to the array that is the state's channel.
    recover_step :
        State Snapshot
        → ExecutionStep
        → ScreenObservation
        → AssertionResult
        → Eff World (State Snapshot)
    unfolding after_recovery
    recover_step s step after post = do
      expected ←
          bound_condition (first_or step.postconditions PlanCondition.no_console_errors) after
      recovered ← recover ports (record {
        expected = expected;
        fallback = record {
          body = ActionBody.press Key.escape none;
          reason = "plan step recovery escape";
        };
        quiescence_ms = config.quiescence_ms;
        max_fallbacks = config.max_fallbacks_per_step;
        max_emergency_actions = config.max_emergency_actions_per_scenario;
        before_observation = some after;
      })
      after_recovery (record s { attempts = s.attempts ++ recovered.attempts }) step after post
          recovered

    unfoldable pub postcheck_node : State Snapshot → Eff World (State Snapshot)
    unfolding recover_step evaluated
    postcheck_node s = do
      step ← step_at s
      exec ← need s.last_exec_result
      after ← need s.after
      post ← check_all ports step.postconditions after s.before_state s.after_state
      let s' = evaluated s (condition_evaluations step Phase.postcondition step.postconditions post)
      if exec.ok && post.ok
          then pure (record s' { last_validation = some post })
          else recover_step s' step after post

  -- The state once the business assertions were checked, with the step that is pushed.
  judged : State Snapshot → AssertionResult → QaStep → State Snapshot
  judged s business qa_step = record s {
    last_validation = some business;
    steps = s.steps ++ (qa_step ∷ []);
  }

  unfoldable pub assertions_node : State Snapshot → Eff World (State Snapshot)
  unfolding evaluated judged
  assertions_node s = do
    step ← step_at s
    after ← need s.after
    business ← check_all ports step.assertions after s.before_state s.after_state
    action ← need s.current_action
    let s' =
        evaluated s (condition_evaluations step Phase.business_assertion step.assertions business)
    let fallback = first_or step.postconditions PlanCondition.no_console_errors
    if business.ok
        then (do
          expected ← bound_condition fallback after
          validation ← need s.last_validation
          pure (
              judged s' business
                (plan_step step after action expected validation s.last_quiescence none)))
        else (do
          expected ← bound_condition (first_or step.assertions fallback) after
          pure (
              judged s' business (
                plan_step step after action expected business s.last_quiescence
                  (some "business assertion failed"))))

  -- The next iteration, or the end of the run.
  repeat_or_stop :
      State Snapshot → ExecutionStep → ScreenObservation → ℕ → Eff World (State Snapshot)
  repeat_or_stop s step after iteration =
      if ltb (or_else step.max_iterations 10) iteration
      then pure (record s {
        ok = false;
        failed_step = last? s.steps;
        failed_observation = some after;
        failed_message =
            some ("repeatUntil exhausted after " <> show (iteration - 1) <> " iterations");
        done = true;
      })
      else pure (record s { iterations = (step.id, iteration) ∷ s.iterations; repeat_step = true })

  repeat_step : State Snapshot → ExecutionStep → Option PlanCondition → Eff World (State Snapshot)
  unfolding repeat_or_stop
  repeat_step s step none = pure (record s { repeat_step = false })
  repeat_step s step (some condition) = do
    after ← need s.after
    repeated ← check_all ports (condition ∷ []) after s.before_state s.after_state
    if repeated.ok
        then pure (record s { repeat_step = false })
        else repeat_or_stop s step after (or_else (iteration_of step.id s.iterations) 1 + 1)

  unfoldable pub repeat_until_node : State Snapshot → Eff World (State Snapshot)
  unfolding repeat_step
  repeat_until_node s = do step ← step_at s; repeat_step s step step.repeat_until
