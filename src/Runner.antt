-- ===== src/Runner.antt =====
-- src/application/services/plan-step-runner.service.ts: what the executor does with one step.
pub mod Laws
pub mod Final
pub mod Versions
pub mod Checks
use qa_agent.Prelude.{
  ℕ, suc, ◌+◌, String, ◌<>◌, Bool, true, false, not, ◌&&◌, ◌||◌, List, [], ◌∷◌, ◌++◌, Option, none,
  some, str_eq, join, take, leb, any, or_else, is_some, show, if◌then◌else◌,
}
use qa_agent.Domain.Action.{QaAction}
use qa_agent.Domain.Plan.{
  PlanCondition, ExecutionStep, ExecutionPlan, PlanPatch, ReplanReason, RuntimeMode, Expected,
}
use qa_agent.Domain.Config.{RunConfig}
use qa_agent.Domain.Observation.{ScreenObservation, BoundExpected}
use qa_agent.Domain.Run.{
  AssertionResult, QaStep, QuiescenceResult, Phase, Severity, ConditionEvaluation, Result, ok, fail,
}
use qa_agent.Effect.{Eff, Outcome, done, threw, interrupted, ◌>>=◌, ◌>>◌, pure, try_catch, need}
use qa_agent.Plan.Schema.{Stringify}
use qa_agent.Plan.Patch.{apply, AppliedPlanPatch, PatchStatus, PatchHistory}
use qa_agent.Ports.{Ports}
use qa_agent.Network

-- The `type` tag of a condition.
abbrev pub condition_type : PlanCondition → String
condition_type (PlanCondition.field_value_contains _ _) = "field_value_contains"
condition_type (PlanCondition.element_visible _ _) = "element_visible"
condition_type (PlanCondition.text_visible _) = "text_visible"
condition_type (PlanCondition.text_any_visible _) = "text_any_visible"
condition_type (PlanCondition.url_contains _) = "url_contains"
condition_type PlanCondition.no_console_errors = "no_console_errors"
condition_type (PlanCondition.ui_state _ _) = "ui_state"
condition_type (PlanCondition.auth_state _) = "auth_state"
condition_type (PlanCondition.menu_state _ _) = "menu_state"
condition_type (PlanCondition.route_state _ _ _) = "route_state"
condition_type (PlanCondition.attribute_state _ _ _) = "attribute_state"
condition_type (PlanCondition.storage_state _ _ _) = "storage_state"
condition_type (PlanCondition.network_state _) = "network_state"

-- The texts of a `text_any_visible` condition.
abbrev any_texts : PlanCondition → Option (List String)
any_texts (PlanCondition.text_any_visible texts) = some texts
any_texts _ = none

abbrev pub all_passed : AssertionResult
all_passed = record { ok = true; type = "conditions"; expected = none; actual = none }

abbrev not_visible : List String → ScreenObservation → AssertionResult
not_visible texts obs = record {
  ok = false;
  type = "text_any_visible";
  expected = some (join " | " texts);
  actual = some (join " | " (take 6 obs.visible_texts));
}

-- `conditionEvaluations`: one evaluation for each condition, or one for none.
evaluation : ExecutionStep → Phase → String → String → Bool → String → ConditionEvaluation
evaluation s phase id type passed reason = record {
  condition_id = id;
  step_id = s.id;
  phase = phase;
  type = type;
  passed = passed;
  severity = if passed then Severity.info else Severity.error;
  reason = reason;
}

abbrev phase_name : Phase → String
phase_name Phase.precondition = "precondition"
phase_name Phase.postcondition = "postcondition"
phase_name Phase.business_assertion = "businessAssertion"

-- `result.ok || result.type !== condition.type`
condition_passed : AssertionResult → PlanCondition → Bool
condition_passed r c = r.ok || not (str_eq r.type (condition_type c))

evaluations_from :
    ExecutionStep → Phase → AssertionResult → ℕ → List PlanCondition → List ConditionEvaluation
unfolding evaluation condition_passed
evaluations_from s phase r n [] = []
evaluations_from s phase r n (c ∷ cs) =
    evaluation s phase (s.id <> ":" <> phase_name phase <> ":" <> show n) (condition_type c)
      (condition_passed r c)
      (if condition_passed r c then "condition passed" else or_else r.actual "condition failed")
    ∷ evaluations_from s phase r (n + 1) cs

unfoldable pub condition_evaluations :
    ExecutionStep → Phase → List PlanCondition → AssertionResult → List ConditionEvaluation
unfolding evaluations_from evaluation
condition_evaluations s phase [] r =
    evaluation s phase (s.id <> ":" <> phase_name phase <> ":none") r.type r.ok
      (if r.ok then "conditions passed" else or_else r.actual "condition failed")
    ∷ []
condition_evaluations s phase (c ∷ cs) r = evaluations_from s phase r 1 (c ∷ cs)

unfoldable pub plan_step :
    ExecutionStep
    → ScreenObservation
    → QaAction
    → BoundExpected
    → AssertionResult
    → Option QuiescenceResult
    → Option String
    → QaStep
plan_step s obs action expected validation quiescence error = record {
  step_id = s.id;
  scenario_id = s.scenario_id;
  task_id = s.task_id;
  observation_id = obs.observation_id;
  thought_summary = s.description;
  action = action;
  resolved_action = action;
  bound_expected = expected;
  validation = validation;
  quiescence = quiescence;
  error = error;
}

-- What `tryReplan` pushes to the patch history, and the plan that it returns.
pub data HistoryItem : Type 0 where
  patched : PatchHistory → String → HistoryItem
  refused : String → ReplanReason → HistoryItem

pub record Replan : Type 0 where
  pub plan : Option ExecutionPlan
  pub history : List HistoryItem

unfoldable pub is_plan_and_execute : RuntimeMode → Bool
is_plan_and_execute RuntimeMode.plan_and_execute = true
is_plan_and_execute _ = false

unfoldable pub plan_of : PatchStatus → ExecutionPlan → Option ExecutionPlan
plan_of PatchStatus.blocked plan = none
plan_of PatchStatus.applied plan = some plan

unfoldable pub no_plan : List HistoryItem → Replan
no_plan items = record { plan = none; history = items }

-- What the replanner's answer gives.
unfoldable pub settle : String → ReplanReason → String → Result AppliedPlanPatch → Replan
unfolding plan_of no_plan
settle step_id reason message (ok a) = record {
  plan = plan_of a.history.status a.plan;
  history = patched a.history message ∷ [];
}
settle step_id reason message (fail _) = no_plan (refused step_id reason ∷ [])

module _ (ports : Ports) where
  open ports use {
    World, Snapshot, browser_observe, rebuild_locators, memory_observe, resolve_condition, validate,
    bound_condition, runtime_check, any_visible, decide_patch,
  }

  remember : Option String → Option String → ScreenObservation → Eff World (Unit {0})
  remember (some scenario) (some task) obs = memory_observe scenario task obs
  remember _ _ obs = pure tt

  unfoldable pub observe : ExecutionStep → Eff World ScreenObservation
  unfolding remember
  observe s = do
    obs ← browser_observe
    rebuild_locators obs
    remember s.scenario_id s.task_id obs
    pure obs

  -- The verdict on one resolved condition: the network's, the runtime state's, that on the visible
  -- texts, or the browser's, in this order.
  ask_browser : PlanCondition → ScreenObservation → Eff World AssertionResult
  ask_browser c obs = do expected ← bound_condition c obs; validate expected

  check_texts : Option (List String) → PlanCondition → ScreenObservation → Eff World AssertionResult
  unfolding ask_browser
  check_texts (some texts) c obs =
      pure (if any_visible obs texts then all_passed else not_visible texts obs)
  check_texts none c obs = ask_browser c obs

  check_runtime :
      Option AssertionResult → PlanCondition → ScreenObservation → Eff World AssertionResult
  unfolding check_texts
  check_runtime (some r) c obs = pure r
  check_runtime none c obs = check_texts (any_texts c) c obs

  check_resolved :
      Option AssertionResult
      → PlanCondition
      → ScreenObservation
      → Option Snapshot
      → Option Snapshot
      → Eff World AssertionResult
  unfolding check_runtime
  check_resolved (some r) c obs before after = pure r
  check_resolved none c obs before after = check_runtime (runtime_check c obs before after) c obs

  unfoldable pub check_one :
      PlanCondition
      → ScreenObservation
      → Option Snapshot
      → Option Snapshot
      → Eff World AssertionResult
  unfolding check_resolved
  check_one c obs before after = do
    resolved ← resolve_condition c
    check_resolved (Network.validate resolved obs) resolved obs before after

  -- `checkAll`: the first condition that fails gives the result.
  unfoldable pub check_all :
      List PlanCondition
      → ScreenObservation
      → Option Snapshot
      → Option Snapshot
      → Eff World AssertionResult
  check_all [] obs before after = pure all_passed
  check_all (c ∷ cs) obs before after = do
    r ← check_one c obs before after
    if r.ok then check_all cs obs before after else pure r

  module _ (json : Stringify) (config : RunConfig) where
    -- `replanner.replan(…)` inside `try`.
    unfoldable pub ask_replan :
        ExecutionPlan → ExecutionStep → ScreenObservation → ReplanReason → String → Eff World Replan
    unfolding settle no_plan
    ask_replan plan s before reason message =
        try_catch
          (do
            patch ← decide_patch plan s before reason message
            pure (settle s.id reason message (apply json plan patch config)))
          (pure (no_plan (refused s.id reason ∷ [])))

    -- `tryReplan`; its telemetry is pushed by the caller.
    unfoldable pub try_replan :
        ExecutionPlan
        → ExecutionStep
        → ScreenObservation
        → ReplanReason
        → String
        → ℕ
        → Eff World Replan
    unfolding ask_replan is_plan_and_execute
    try_replan plan s before reason message replans =
        if is_plan_and_execute plan.mode
        then pure (no_plan [])
        else if leb plan.runtime.max_replans_per_scenario replans
        then pure (no_plan [])
        else ask_replan plan s before reason message
