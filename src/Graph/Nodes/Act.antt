-- ===== src/Graph/Nodes/Act.antt =====
-- The nodes up to the execution of the action: observe, precheck, resolveAction, policyGuard,
-- destructiveGuard, execute and observeAfter.
pub mod Frame
pub mod Guards
use qa_agent.Prelude.{
  ℕ, ◌+◌, String, ◌<>◌, Bool, true, false, not, ◌&&◌, List, [], ◌∷◌, ◌++◌, Option, none, some, ltb,
  get_elem?, is_some, if◌then◌else◌,
}
use qa_agent.Domain.Action.{QaAction, ActionBody, action_type}
use qa_agent.Domain.Plan.{ExecutionStep, PlanActionBody, PlanCondition, DestructiveActionPolicy}
use qa_agent.Domain.Config.{RunConfig}
use qa_agent.Domain.Observation.{ScreenObservation, BoundExpected}
use qa_agent.Domain.Run.{
  AssertionResult, AttemptRecord, AttemptStatus, ExecResult, QuiescenceResult, Phase, Warning,
  LocatorTelemetryEvent, TelemetryType,
}
use qa_agent.Effect.{
  Eff, Outcome, done, threw, interrupted, ◌>>=◌, ◌>>◌, pure, raise, pause, need, try_catch,
}
use qa_agent.Ports.{Ports, Availability, Resolution}
use qa_agent.Policy
use qa_agent.Policy.{Verdict, allowed, denied}
use qa_agent.Recovery.{error_message}
use qa_agent.Runner
use qa_agent.Runner.{check_all, condition_evaluations, plan_step}
use qa_agent.Graph.State.{State}

-- `state.currentPlan.steps[state.stepIndex]!`: past the end the first access to the step throws.
unfoldable pub step_at : {S W : Type 0} → State S → Eff W ExecutionStep
step_at s = need (get_elem? s.current_plan.steps s.step_index)

-- The event that `resolveAction` pushes by itself.
abbrev pub event : ExecutionStep → TelemetryType → LocatorTelemetryEvent
event step type = record {
  step_id = step.id;
  type = type;
  locator_strategy = none;
  element_id = none;
}

abbrev pub is_click : PlanActionBody → Bool
is_click (PlanActionBody.click _) = true
is_click _ = false

-- Where the search for the action stands: the observation and what was pushed so far.
record Search : Type 0 where
  before : ScreenObservation
  attempts : List AttemptRecord
  warnings : List Warning
  telemetry : List LocatorTelemetryEvent

module _ (ports : Ports) where
  open ports use {
    World, Snapshot, execute, wait_for_quiescence, runtime_state, accessibility_warnings,
    resolve_plan_action, store_value, memory_action, resolve_action, ensure_available,
    decide_action,
  }

  unfoldable pub observe_node : State Snapshot → Eff World (State Snapshot)
  observe_node s = do
    step ← step_at s
    obs ← Runner.observe ports step
    before_state ←
        runtime_state obs (step.preconditions ++ (step.postconditions ++ step.assertions))
    pure (record s {
      before = some obs;
      before_state = some before_state;
      attempt = 0;
      passed = false;
      patched_step = false;
      repeat_step = false;
    })

  unfoldable pub precheck_node : State Snapshot → Eff World (State Snapshot)
  precheck_node s = do
    step ← step_at s
    before ← need s.before
    pre ← check_all ports step.preconditions before s.before_state none
    pure (record s {
      evaluations =
          s.evaluations ++ condition_evaluations step Phase.precondition step.preconditions pre;
      last_validation = some pre;
    })

  -- The state after `resolveAction`, with an action or without.
  resolved_with : State Snapshot → Search → Option QaAction → State Snapshot
  resolved_with s r action = record s {
    before = some r.before;
    attempts = s.attempts ++ r.attempts;
    warnings = s.warnings ++ r.warnings;
    locator_telemetry = s.locator_telemetry ++ r.telemetry;
    current_action = action;
  }

  -- The last resort: the decision provider chooses the action, or there is none.
  ask_provider : State Snapshot → ExecutionStep → Search → Eff World (State Snapshot)
  unfolding resolved_with
  ask_provider s step r =
      try_catch
        (do
          action ← decide_action step r.before
          pure (
              resolved_with s
                (record r { telemetry = r.telemetry ++ (event step TelemetryType.llm_decide ∷ []) })
                (some action)))
        (pure (resolved_with s r none))

  -- The second attempt, once the target was made available; a failure of it is not caught.
  resolve_again : State Snapshot → ExecutionStep → Search → Eff World (State Snapshot)
  unfolding resolved_with
  resolve_again s step r = do
    again ← resolve_action step r.before
    action ← need again.action
    pure (resolved_with s (record r { telemetry = r.telemetry ++ again.telemetry }) (some action))

  -- The `catch` of `resolveAction`.
  resolve_otherwise : State Snapshot → ExecutionStep → Search → Eff World (State Snapshot)
  unfolding ask_provider resolve_again
  resolve_otherwise s step r = do
    warnings ← accessibility_warnings step.id
    available ← ensure_available step r.before
    let r' = record r {
      attempts = r.attempts ++ available.attempts;
      warnings = r.warnings ++ warnings;
      telemetry = r.telemetry ++ (event step TelemetryType.target_not_found ∷ []);
    }
    if available.available
        then resolve_again s step (record r' { before = available.observation })
        else ask_provider s step r'

  first_resolution :
      State Snapshot → ExecutionStep → Search → Option QaAction → Eff World (State Snapshot)
  unfolding resolved_with resolve_otherwise
  first_resolution s step r (some action) = pure (resolved_with s r (some action))
  first_resolution s step r none = resolve_otherwise s step r

  -- `ensureActionTargetAvailable` before a click.
  prepare_click : Bool → ExecutionStep → ScreenObservation → Eff World Search
  prepare_click true step before = do
    available ← ensure_available step before
    pure (record {
      before = if available.reobserved then available.observation else before;
      attempts = available.attempts;
      warnings = [];
      telemetry = [];
    })
  prepare_click false step before =
      pure (record { before = before; attempts = []; warnings = []; telemetry = [] })

  module _ (config : RunConfig) where
    unfoldable pub resolve_action_node : State Snapshot → Eff World (State Snapshot)
    unfolding first_resolution prepare_click
    resolve_action_node s = do
      step ← step_at s
      before ← need s.before
      action ← resolve_plan_action step.action
      r ← prepare_click (is_click action.body && config.element_availability) step before
      first ← resolve_action step r.before
      first_resolution s step (record r { telemetry = r.telemetry ++ first.telemetry }) first.action

    -- The state of a run that the policy stops.
    denied_with :
        State Snapshot → ExecutionStep → ScreenObservation → QaAction → String → State Snapshot
    denied_with s step before action message =
        let qa_step =
          plan_step step before action BoundExpected.no_console_errors
            (record { ok = false; type = "policy"; expected = none; actual = some message }) none
            (some message) in
        record s {
          ok = false;
          failed_step = some qa_step;
          failed_observation = some before;
          failed_message = some message;
          steps = s.steps ++ (qa_step ∷ []);
          done = true;
        }

    guard_verdict : State Snapshot → ExecutionStep → QaAction → Verdict → Eff World (State Snapshot)
    unfolding denied_with
    guard_verdict s step action allowed = pure s
    guard_verdict s step action (denied code message) = do
      before ← need s.before
      pure (denied_with s step before action message)

    guard_action : State Snapshot → ExecutionStep → Option QaAction → Eff World (State Snapshot)
    unfolding guard_verdict
    guard_action s step none = pure s
    guard_action s step (some action) =
        guard_verdict s step action (Policy.validate action config s.attempts)

    unfoldable pub policy_guard_node : State Snapshot → Eff World (State Snapshot)
    unfolding guard_action
    policy_guard_node s = do step ← step_at s; guard_action s step s.current_action

    -- The graph pauses where the text is destructive under a policy other than ALLOW.
    guard_text : State Snapshot → Verdict → Eff World (State Snapshot)
    guard_text s allowed = pure s
    guard_text s (denied code message) = pause

    guard_under : DestructiveActionPolicy → State Snapshot → Eff World (State Snapshot)
    unfolding guard_text
    guard_under DestructiveActionPolicy.allow s = pure s
    guard_under policy s = do
      step ← step_at s
      action ← need s.current_action
      guard_text s
          (Policy.validate_destructive_text (step.description <> " " <> action.reason) config)

    unfoldable pub destructive_guard_node : State Snapshot → Eff World (State Snapshot)
    unfolding guard_under
    destructive_guard_node s = guard_under s.current_plan.runtime.destructive_action_policy s

    -- `runner.data.storeValue(action.key, exec.data)` for an extraction that succeeded.
    unfoldable pub keep_extracted : ActionBody → Option String → Eff World (Unit {0})
    keep_extracted (ActionBody.extract target key source) (some text) = store_value key text
    keep_extracted body text = pure tt

    remember_for : Option String → Option String → QaAction → Bool → Eff World (Unit {0})
    remember_for (some scenario) (some task) action success =
        memory_action scenario task action success
    remember_for _ _ action success = pure tt

    unfoldable pub remember_action : ExecutionStep → QaAction → Bool → Eff World (Unit {0})
    unfolding remember_for
    remember_action step action success = remember_for step.scenario_id step.task_id action success

    -- `waitForQuiescence`, skipped after a fast success.
    unfoldable pub settle_page : ExecResult → Eff World (Option QuiescenceResult)
    settle_page exec =
        if exec.ok && ltb exec.duration_ms 1000
        then pure none
        else do q ← wait_for_quiescence config.quiescence_ms; pure (some q)

    abbrev pub unstable : Option QuiescenceResult → Bool
    unstable none = false
    unstable (some q) = not q.stable

    abbrev pub timeout_attempt : AttemptRecord
    timeout_attempt = record {
      action_type = "waitForQuiescence";
      result = AttemptStatus.failed;
      reason = some "QUIESCENCE_TIMEOUT";
    }

    -- The attempt that `execute` records.
    pub attempt_record : QaAction → ExecResult → AttemptRecord
    attempt_record action exec = record {
      action_type = action_type action.body;
      result = if exec.ok then AttemptStatus.passed else AttemptStatus.failed;
      reason = error_message exec;
    }

    unfoldable pub execute_node : State Snapshot → Eff World (State Snapshot)
    unfolding settle_page attempt_record keep_extracted remember_action
    execute_node s = do
      step ← step_at s
      action ← need s.current_action
      exec ← execute action
      keep_extracted action.body (if exec.ok then exec.extracted else none)
      remember_action step action exec.ok
      quiescence ← settle_page exec
      pure (record s {
        last_exec_result = some exec;
        last_quiescence = quiescence;
        attempts =
            s.attempts
            ++ (attempt_record action exec
                ∷ (if unstable quiescence then timeout_attempt ∷ [] else []));
        warnings =
            s.warnings
            ++ (if unstable quiescence
                then record { step_id = step.id; message = "QUIESCENCE_TIMEOUT" } ∷ []
                else []);
      })

  -- The actions after which the page is audited.
  abbrev pub is_audited : ActionBody → Bool
  is_audited (ActionBody.navigate _) = true
  is_audited (ActionBody.compare_screenshot _ _) = true
  is_audited _ = false

  unfoldable pub audit_after : Bool → ExecutionStep → Eff World (List Warning)
  audit_after true step = accessibility_warnings step.id
  audit_after false step = pure []

  unfoldable pub observe_after_node : State Snapshot → Eff World (State Snapshot)
  unfolding audit_after
  observe_after_node s = do
    step ← step_at s
    action ← need s.current_action
    after ← Runner.observe ports step
    after_state ← runtime_state after (step.postconditions ++ step.assertions)
    warnings ← audit_after (is_audited action.body) step
    pure (record s {
      after = some after;
      after_state = some after_state;
      warnings = s.warnings ++ warnings;
    })
