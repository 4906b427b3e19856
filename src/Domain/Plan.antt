-- ===== src/Domain/Plan.antt =====
-- src/domain/schemas/execution-plan.schema.ts: plans, their steps and patches.
use qa_agent.Prelude.{ℕ, String, Bool, List, Option}
use qa_agent.Domain.Action.{Locator, Choice, Key, Source}

pub data RuntimeMode : Type 0 where
  hybrid_guarded full_reactive plan_and_execute orchestrator : RuntimeMode

pub data StepFailurePolicy : Type 0 where
  ask_llm_to_replan recover block continue_with_warning : StepFailurePolicy

pub data DestructiveActionPolicy : Type 0 where
  allow block ask_approval allow_only_in_test_env : DestructiveActionPolicy

pub data ReplanReason : Type 0 where
  precondition_failed postcondition_failed locator_not_found recovery_failed : ReplanReason
  unexpected_route modal_or_overlay_detected assertion_failed : ReplanReason

-- What a runtime condition expects: a text (`changed`, `open`, … among them), a flag or a number.
pub data Expected : Type 0 where
  text : String → Expected
  flag : Bool → Expected
  number : ℕ → Expected

pub data NetworkExpected : Type 0 where
  no_errors no_4xx no_5xx has_request_to : NetworkExpected

pub record NetworkState : Type 0 where
  pub expected : NetworkExpected
  pub url_pattern : Option String
  pub min_status : Option ℕ
  pub max_status : Option ℕ

-- `PlanConditionSchema`.
pub data PlanCondition : Type 0 where
  field_value_contains : Locator → String → PlanCondition
  element_visible : Option Locator → Option String → PlanCondition
  text_visible : String → PlanCondition
  text_any_visible : List String → PlanCondition
  url_contains : String → PlanCondition
  no_console_errors : PlanCondition
  ui_state : String → Expected → PlanCondition
  auth_state : String → PlanCondition
  menu_state : String → String → PlanCondition
  route_state : String → Option String → Option String → PlanCondition
  attribute_state : Locator → String → Expected → PlanCondition
  storage_state : String → String → Expected → PlanCondition
  network_state : NetworkState → PlanCondition

-- `PlanActionSchema`; the reason stands in the record below.
pub data PlanActionBody : Type 0 where
  click : Locator → PlanActionBody
  fill : Locator → String → PlanActionBody
  select_option : Locator → Choice → PlanActionBody
  press : Key → Option Locator → PlanActionBody
  click_outside : PlanActionBody
  click_at_coordinates : ℕ → ℕ → PlanActionBody
  wait_for_stable : Option ℕ → PlanActionBody
  navigate : String → PlanActionBody
  drag : Locator → Locator → PlanActionBody
  upload_file : Locator → String → PlanActionBody
  wait_for_condition : String → Option ℕ → PlanActionBody
  compare_screenshot : String → Option ℕ → PlanActionBody
  audit_accessibility : PlanActionBody
  accept_dialog : Option String → PlanActionBody
  dismiss_dialog : PlanActionBody
  type_text : Option Locator → String → Option ℕ → PlanActionBody
  rich_text_fill : Locator → String → PlanActionBody
  extract : Locator → String → Source → PlanActionBody
  assert_visible : Option Locator → Option String → PlanActionBody
  abort_scenario : PlanActionBody

pub record PlanAction : Type 0 where
  pub body : PlanActionBody
  pub reason : String

pub record ExecutionStep : Type 0 where
  pub id : String
  pub scenario_id : Option String
  pub task_id : Option String
  pub description : String
  pub preconditions : List PlanCondition
  pub action : PlanAction
  pub postconditions : List PlanCondition
  pub assertions : List PlanCondition
  pub on_failure : StepFailurePolicy
  pub max_attempts : Option ℕ
  pub repeat_until : Option PlanCondition
  pub max_iterations : Option ℕ
  pub is_fallback : Option Bool

pub data PatchOperation : Type 0 where
  insert_after replace_step replace_remaining_steps mark_blocked : PatchOperation

pub record PlanPatch : Type 0 where
  pub base_plan_id : String
  pub base_plan_version : ℕ
  pub operation : PatchOperation
  pub step_id : Option String
  pub reason : String
  pub replan_reason : ReplanReason
  pub steps : List ExecutionStep

pub record Runtime : Type 0 where
  pub max_attempts_per_step : ℕ
  pub max_replans_per_scenario : ℕ
  pub destructive_action_policy : DestructiveActionPolicy

-- The audit of the plan's targets is left out of the metadata.
pub record Metadata : Type 0 where
  pub plan_source : Option String
  pub fallback_reason : Option String
  pub fallback_warning : Option String

pub record ExecutionPlan : Type 0 where
  pub plan_id : String
  pub version : ℕ
  pub goal : String
  pub mode : RuntimeMode
  pub runtime : Runtime
  pub steps : List ExecutionStep
  pub assertions : List PlanCondition
  pub metadata : Option Metadata
