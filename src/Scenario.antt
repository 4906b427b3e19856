-- ===== src/Scenario.antt =====
-- A small run: the data that the examples share, with a browser whose page counts the actions.
pub mod Tests
pub mod Values
pub mod Loop
pub mod Gate
pub mod Stages
pub mod Queue
pub mod Menu
pub mod Paths
pub mod Changes
use qa_agent.Prelude.{
  ℕ, suc, String, Bool, true, false, List, [], ◌∷◌, Option, none, some, codes, ltb,
}
use qa_agent.Domain.Action.{QaAction, ActionBody}
use qa_agent.Domain.Plan.{
  PlanAction, PlanActionBody, PlanCondition, ExecutionStep, ExecutionPlan, PlanPatch,
  PatchOperation, ReplanReason, RuntimeMode, DestructiveActionPolicy, StepFailurePolicy,
}
use qa_agent.Domain.Config.{RunConfig}
use qa_agent.Domain.Observation.{ScreenObservation, BoundExpected}
use qa_agent.Domain.Run.{AssertionResult}
use qa_agent.Effect.{Eff, Outcome, done, threw, interrupted, pure, raise}
use qa_agent.Plan.Schema.{Stringify}
use qa_agent.Ports.{Ports}

abbrev pub page : ScreenObservation
page = record {
  observation_id = "o1";
  url = "https://app/home";
  title = "Home";
  visible_texts = "Welcome" ∷ [];
  elements = [];
  network_signals = [];
}

abbrev verdict : Bool → AssertionResult
verdict b = record { ok = b; type = "no_console_errors"; expected = none; actual = none }

abbrev pub wait : QaAction
wait = record { body = ActionBody.wait_for_stable none; reason = "settle" }

-- An action adds one to the world; a check passes once two actions were taken.
abbrev pub demo : Ports
demo = record {
  World = ℕ;
  Snapshot = ℕ;
  execute =
      λ a w. done (record { ok = true; duration_ms = 5; error = none; extracted = none }) (suc w);
  wait_for_quiescence = λ n w. done (record { stable = true }) w;
  browser_observe = λ w. done page w;
  validate = λ e w. done (verdict (ltb 1 w)) w;
  runtime_state = λ o cs w. done w w;
  accessibility_warnings = λ id w. done [] w;
  rebuild_locators = λ o w. done tt w;
  resolve_condition = λ c w. done c w;
  resolve_plan_action = λ a w. done a w;
  store_value = λ k v w. done tt w;
  memory_observe = λ s t o w. done tt w;
  memory_action = λ s t a b w. done tt w;
  resolve_action = λ s o w. done (record { message = ""; action = some wait; telemetry = [] }) w;
  ensure_available = λ s o w.
      done (record { available = true; observation = o; reobserved = false; attempts = [] }) w;
  bound_condition = λ c o w. done BoundExpected.no_console_errors w;
  runtime_check = λ c o b a. none;
  any_visible = λ o ts. true;
  decide_action = λ s o w. threw w;
  decide_patch = λ p s o r m w. threw w;
}

abbrev pub json : Stringify
json = record { plan = λ p. codes p.goal; patch = λ p. codes p.reason }

abbrev pub config : RunConfig
config = record {
  allowed_routes = some ("/home" ∷ []);
  app_domains = "app" ∷ [];
  destructive_action_policy = DestructiveActionPolicy.block;
  element_availability = false;
  quiescence_ms = 100;
  max_fallbacks_per_step = 2;
  max_emergency_actions_per_scenario = 1;
  classifier = record {
    known_tracking_domains = [];
    known_third_party_domains = [];
    treat_third_party_network_5xx_as_bug = false;
  };
}

abbrev pub step : String → String → ExecutionStep
step id description = record {
  id = id;
  scenario_id = none;
  task_id = none;
  description = description;
  preconditions = [];
  action = record { body = PlanActionBody.wait_for_stable none; reason = "settle" };
  postconditions = PlanCondition.no_console_errors ∷ [];
  assertions = [];
  on_failure = StepFailurePolicy.block;
  max_attempts = none;
  repeat_until = none;
  max_iterations = none;
  is_fallback = none;
}

abbrev pub plan : ExecutionPlan
plan = record {
  plan_id = "p1";
  version = 1;
  goal = "open the home page";
  mode = RuntimeMode.hybrid_guarded;
  runtime = record {
    max_attempts_per_step = 1;
    max_replans_per_scenario = 2;
    destructive_action_policy = DestructiveActionPolicy.block;
  };
  steps = step "s1" "wait" ∷ [];
  assertions = PlanCondition.no_console_errors ∷ [];
  metadata = none;
}

-- The step is replaced by two.
abbrev pub patch : PlanPatch
patch = record {
  base_plan_id = "p1";
  base_plan_version = 1;
  operation = PatchOperation.replace_step;
  step_id = some "s1";
  reason = "the page was slow";
  replan_reason = ReplanReason.assertion_failed;
  steps = step "s2" "wait" ∷ step "s3" "look" ∷ [];
}
