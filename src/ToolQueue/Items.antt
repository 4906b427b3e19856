-- ===== src/ToolQueue/Items.antt =====
-- src/domain/schemas/tool-queue.schema.ts and replan-queue.schema.ts beside it: the calls of the tools.
use qa_agent.Prelude.{ℕ, String, Bool, true, ◌&&◌, ltb, List, Option}
use qa_agent.Domain.Action.{Locator, Key}
use qa_agent.Domain.Plan.{PlanCondition}
use qa_agent.Plan.Schema.{non_empty, optional, valid_locator, valid_condition}

pub data ScanMode : Type 0 where
  scan_clickables scan_inputs scan_accessibility_tree scan_semantic_candidates full_observation :
      ScanMode

unfoldable pub mode_name : ScanMode → String
mode_name ScanMode.scan_clickables = "scan_clickables"
mode_name ScanMode.scan_inputs = "scan_inputs"
mode_name ScanMode.scan_accessibility_tree = "scan_accessibility_tree"
mode_name ScanMode.scan_semantic_candidates = "scan_semantic_candidates"
mode_name ScanMode.full_observation = "full_observation"

pub key_name : Key → String
key_name Key.escape = "Escape"
key_name Key.enter = "Enter"
key_name Key.tab = "Tab"
key_name Key.backspace = "Backspace"
key_name Key.arrow_up = "ArrowUp"
key_name Key.arrow_down = "ArrowDown"
key_name Key.arrow_left = "ArrowLeft"
key_name Key.arrow_right = "ArrowRight"

-- A tool with its parameters.
pub data ToolCall : Type 0 where
  navigator_open : (url : String) (expected_title : Option String) → ToolCall
  observer_capture : (screenshot accessibility_tree dom_summary full_page : Option Bool) → ToolCall
  actor_click : (target : Locator) (timeout_ms : Option ℕ) → ToolCall
  actor_fill : (target : Locator) (value : String) → ToolCall
  actor_type : (text : String) (delay_ms : Option ℕ) → ToolCall
  actor_press : (key : Key) → ToolCall
  validator_state : (condition : PlanCondition) → ToolCall
  explorer_scan : (mode : ScanMode) → ToolCall

-- `ToolNameSchema`
unfoldable pub tool_name : ToolCall → String
tool_name (ToolCall.navigator_open _ _) = "navigator.open"
tool_name (ToolCall.observer_capture _ _ _ _) = "observer.capture"
tool_name (ToolCall.actor_click _ _) = "actor.click"
tool_name (ToolCall.actor_fill _ _) = "actor.fill"
tool_name (ToolCall.actor_type _ _) = "actor.type"
tool_name (ToolCall.actor_press _) = "actor.press"
tool_name (ToolCall.validator_state _) = "validator.state"
tool_name (ToolCall.explorer_scan _) = "explorer.scan"

pub record ToolQueueItem : Type 0 where
  pub step : ℕ
  pub call : ToolCall
  pub fallback : Option ToolCall

-- The constraints on the parameters of each tool.
unfoldable pub valid_call : ToolCall → Bool
valid_call (ToolCall.navigator_open url _) = non_empty url
valid_call (ToolCall.observer_capture _ _ _ _) = true
valid_call (ToolCall.actor_click target timeout_ms) =
    valid_locator target && optional (λ n. ltb 0 n) timeout_ms
valid_call (ToolCall.actor_fill target value) = valid_locator target && non_empty value
valid_call (ToolCall.actor_type text delay_ms) = non_empty text && optional (λ n. ltb 0 n) delay_ms
valid_call (ToolCall.actor_press _) = true
valid_call (ToolCall.validator_state condition) = valid_condition condition
valid_call (ToolCall.explorer_scan _) = true

-- `ToolQueueItemSchema`
unfoldable pub valid_item : ToolQueueItem → Bool
unfolding valid_call
valid_item item = ltb 0 item.step && valid_call item.call && optional valid_call item.fallback

pub data ReplanAction : Type 0 where
  replace_remaining_steps abort : ReplanAction

-- `ReplanQueueSchema`
pub record ReplanQueue : Type 0 where
  pub action : ReplanAction
  pub from_step : Option ℕ
  pub task_queue : Option (List ToolQueueItem)
  pub reasoning : String
