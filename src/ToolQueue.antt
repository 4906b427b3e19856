-- ===== src/ToolQueue.antt =====
-- src/application/services/tool-queue-to-execution-plan.mapper.ts: the queue of tool calls that the
-- orchestrator gives, as a plan.
pub mod Items
pub mod Recorder
pub mod Replan
pub mod Mapped
pub mod Answers
pub mod Resumed
use qa_agent.Prelude.{
  ℕ, suc, ◌+◌, String, ◌<>◌, Bool, true, List, [], ◌∷◌, Option, none, some, show, ltb, is_some, any,
  if◌then◌else◌,
}
use qa_agent.Domain.Plan.{
  PlanCondition, PlanAction, PlanActionBody, ExecutionStep, ExecutionPlan, RuntimeMode,
  DestructiveActionPolicy, StepFailurePolicy,
}
use qa_agent.ToolQueue.Items.{ToolCall, ScanMode, ToolQueueItem, tool_name, mode_name, key_name}

pub record MapperInput : Type 0 where
  pub task_queue : List ToolQueueItem
  pub goal : String
  pub plan_id : String
  pub scenario_id : Option String
  pub task_id : Option String

-- `String(n).padStart(3, '0')`
abbrev pub pad_three : ℕ → String
pad_three n = if ltb n 10 then "00" <> show n else if ltb n 100 then "0" <> show n else show n

abbrev scan_text : ScanMode → String
scan_text ScanMode.scan_inputs = "input"
scan_text ScanMode.scan_clickables = "button"
scan_text _ = "page"

-- The action for each tool.
unfoldable pub action_of : ToolCall → PlanAction
action_of (ToolCall.navigator_open url _) = record {
  body = PlanActionBody.navigate url;
  reason = "Navigate to " <> url;
}
action_of (ToolCall.observer_capture _ _ _ _) = record {
  body = PlanActionBody.wait_for_stable (some 1000);
  reason = "Capture page state";
}
action_of (ToolCall.actor_click target _) = record {
  body = PlanActionBody.click target;
  reason = "Click target element";
}
action_of (ToolCall.actor_fill target value) = record {
  body = PlanActionBody.fill target value;
  reason = "Fill field with \"" <> value <> "\"";
}
action_of (ToolCall.actor_type text delay_ms) = record {
  body = PlanActionBody.type_text none text delay_ms;
  reason = "Type text: " <> text;
}
action_of (ToolCall.actor_press key) = record {
  body = PlanActionBody.press key none;
  reason = "Press key: " <> key_name key;
}
action_of (ToolCall.validator_state condition) = record {
  body = PlanActionBody.wait_for_stable (some 1000);
  reason = "Validate state";
}
action_of (ToolCall.explorer_scan mode) = record {
  body = PlanActionBody.assert_visible none (some (scan_text mode));
  reason = "Explore page for " <> mode_name mode;
}

-- The postcondition for each tool.
unfoldable pub postcondition_of : ToolCall → PlanCondition
postcondition_of (ToolCall.navigator_open url _) =
    PlanCondition.route_state "matches" none (some url)
postcondition_of (ToolCall.actor_click target _) = PlanCondition.element_visible (some target) none
postcondition_of (ToolCall.actor_fill target value) =
    PlanCondition.field_value_contains target value
postcondition_of (ToolCall.actor_type text _) = PlanCondition.text_visible text
postcondition_of (ToolCall.validator_state condition) = condition
postcondition_of _ = PlanCondition.no_console_errors

-- The steps, with the text of the parameters that `JSON.stringify` gives.
module _ (params_text : ToolCall → String) (scenario_id task_id : Option String) where
  unfoldable pub map_item : ToolQueueItem → ℕ → ExecutionStep
  unfolding action_of postcondition_of
  map_item item index = record {
    id = "step-" <> pad_three (index + 1);
    scenario_id = scenario_id;
    task_id = task_id;
    description = tool_name item.call <> ": " <> params_text item.call;
    preconditions = [];
    action = action_of item.call;
    postconditions = postcondition_of item.call ∷ [];
    assertions = [];
    on_failure = StepFailurePolicy.recover;
    max_attempts = none;
    repeat_until = none;
    max_iterations = none;
    is_fallback = none;
  }

  -- `taskQueue.map((item, index) => …)`, from an index on.
  unfoldable pub map_items : List ToolQueueItem → ℕ → List ExecutionStep
  unfolding map_item
  map_items [] index = []
  map_items (item ∷ items) index = map_item item index ∷ map_items items (suc index)

unfoldable pub map_queue : (ToolCall → String) → MapperInput → ExecutionPlan
unfolding map_items
map_queue params_text input =
    let has_fallback = any (λ item. is_some item.fallback) input.task_queue in
    record {
      plan_id = input.plan_id;
      version = 1;
      goal = input.goal;
      mode = RuntimeMode.hybrid_guarded;
      runtime = record {
        max_attempts_per_step = 2;
        max_replans_per_scenario = 2;
        destructive_action_policy = DestructiveActionPolicy.block;
      };
      steps = map_items params_text input.scenario_id input.task_id input.task_queue 0;
      assertions = [];
      metadata = some (record {
        plan_source = some "orchestrator";
        fallback_reason = if has_fallback then some "ToolQueue contained fallback steps" else none;
        fallback_warning =
            if has_fallback then some "Some steps have fallback tools defined" else none;
      });
    }
