-- ===== src/Scenario/Queue.antt =====
-- A queue of tool calls, and a new one from its second step on.
use qa_agent.Prelude.{
  all, ℕ, zero, suc, ◌+◌, ◌≡◌, ◌↔◌, refl, String, true, false, not, ◌&&◌, List, [], ◌∷◌, ◌++◌, none,
  some, get_elem?, take, has_word, show,
}
use qa_agent.Domain.Plan.{ExecutionPlan, ExecutionStep, PlanPatch, ReplanReason}
use qa_agent.Domain.Run.{ok}
use qa_agent.Effect.{Outcome, done, Settled, fulfilled, rejected}
use qa_agent.Effect.Ensures.{Ensures}
use qa_agent.Plan.Patch.{
  apply, assert_patch_safety, check_steps, check_step, check_originals, check_original,
  affected_steps, step_index, splice, change, locate, finish, applied_to, history_of,
  AppliedPlanPatch, next_plan,
}
use qa_agent.Plan.Schema.{
  non_empty, is_empty, valid_patch, valid_plan, valid_step, valid_locator, valid_condition,
  valid_body, valid_action, has_ephemeral_id,
}
use qa_agent.Policy.{validate_destructive_text, looks_destructive}
use qa_agent.ToolQueue.Items.{
  ToolCall, ScanMode, ToolQueueItem, ReplanQueue, ReplanAction, tool_name, mode_name, valid_item,
}
use qa_agent.ToolQueue.{MapperInput, action_of, postcondition_of, map_item, map_items, map_queue}
use qa_agent.ToolQueue.Mapped.{map_queue-valid_plan}
use qa_agent.ToolQueue.Recorder.{ToolResult, AllOk, record_queue, record_queue_counts}
use qa_agent.ToolQueue.Replan.{
  ReplanToPatchInput, replacement_patch, replace_from, map_replan, OrchestratorReplanInput, replan,
}
use qa_agent.ToolQueue.Answers.{IsFor, replan-IsFor, replan_settles}
use qa_agent.ToolQueue.Resumed.{replan_resumes, replan_clashes}
use qa_agent.Scenario.{json, config}

abbrev item : ℕ → ToolCall → ToolQueueItem
item n call = record { step = n; call = call; fallback = none }

abbrev queue : List ToolQueueItem
queue =
    item 1 (ToolCall.navigator_open "/home" none) ∷ item 2 (ToolCall.actor_type "hello" none) ∷ []

abbrev input : MapperInput
input = record {
  task_queue = queue;
  goal = "open the home page";
  plan_id = "p1";
  scenario_id = none;
  task_id = none;
}

abbrev text_of : ToolCall → String
text_of call = "{}"

abbrev given : ExecutionPlan
given = map_queue text_of input

abbrev fresh : List ToolQueueItem
fresh = item 2 (ToolCall.explorer_scan ScanMode.scan_inputs) ∷ []

abbrev replan_input : ReplanToPatchInput
replan_input = record {
  replan = record {
    action = ReplanAction.replace_remaining_steps;
    from_step = some 2;
    task_queue = some fresh;
    reasoning = "look first";
  };
  original_plan = given;
  replan_reason = ReplanReason.locator_not_found;
  scenario_id = none;
  task_id = none;
}

abbrev first : ExecutionStep
first = map_item text_of none none (item 1 (ToolCall.navigator_open "/home" none)) 0

abbrev target : ExecutionStep
target = map_item text_of none none (item 2 (ToolCall.actor_type "hello" none)) 1

abbrev patch : PlanPatch
patch = replacement_patch text_of replan_input target

abbrev applied : AppliedPlanPatch
applied = applied_to given patch (first ∷ map_items text_of none none fresh 0)

steps-known : given.steps ≡ first ∷ target ∷ []
unfolding map_queue map_items
steps-known = refl

first-named : first.id ≡ "step-001"
unfolding map_item show
first-named = refl

target-index : step_index given.steps target.id ≡ some 1
unfolding step_index map_queue map_items map_item show
target-index = refl

target-found : get_elem? given.steps 1 ≡ some target
unfolding map_queue map_items
target-found = refl

patch-mapped : map_replan text_of replan_input ≡ fulfilled patch
unfolding map_replan replace_from replacement_patch map_queue map_items map_item
patch-mapped = refl

patch-applies : apply json given patch config ≡ ok applied
unfolding apply assert_patch_safety check_steps check_step check_originals check_original
    affected_steps step_index splice change locate finish applied_to history_of valid_patch
    valid_plan valid_step valid_locator valid_condition valid_body valid_action has_ephemeral_id
    validate_destructive_text looks_destructive has_word map_queue map_items map_item action_of
    postcondition_of mode_name tool_name replacement_patch show
patch-applies = refl

replan_resumes_example :
    applied.plan ≡ next_plan given (take 1 given.steps ++ map_items text_of none none fresh 0)
replan_resumes_example =
    replan_resumes json config text_of replan_input fresh 1 target patch applied refl refl refl
      target-index target-found patch-mapped patch-applies

replan_clashes_example :
    (s : ExecutionStep) × (get_elem? applied.plan.steps 1 ≡ some s)
    × (step_index applied.plan.steps s.id ≡ some 0)
replan_clashes_example =
    replan_clashes json config text_of replan_input
      (item 2 (ToolCall.explorer_scan ScanMode.scan_inputs)) [] first (target ∷ []) 0 target patch
      applied steps-known first-named refl refl refl target-index target-found patch-mapped
      patch-applies

all_valid : all valid_item queue ≡ true
unfolding valid_item
all_valid = refl

map_queue-valid_plan_example : valid_plan json (map_queue text_of input) ≡ (
    not (is_empty queue)
    && (non_empty "p1"
        && (non_empty "open the home page"
            && not (has_ephemeral_id (json.plan (map_queue text_of input))))))
map_queue-valid_plan_example = map_queue-valid_plan json text_of input all_valid refl refl

abbrev results : List ToolResult
results = record { ok = true; duration_ms = 5; error_code = none } ∷ []

record_queue_counts_example :
    ((record_queue "p1" queue results).total_steps ≡ 2)
    × ((record_queue "p1" queue results).passed_steps
          + (record_queue "p1" queue results).failed_steps
        ≡ (record_queue "p1" queue results).total_steps)
    × (((record_queue "p1" queue results).has_blocks ≡ false) ↔ AllOk queue results 0)
record_queue_counts_example = record_queue_counts "p1" queue results

-- An LLM that throws first and answers then.
abbrev ask : String → ℕ → Outcome ℕ (Settled String)
ask message zero = done (rejected "timeout") 1
ask message (suc n) = done (fulfilled "{}") (suc (suc n))

abbrev parse : String → Settled ReplanQueue
parse raw = fulfilled replan_input.replan

abbrev orchestrated : OrchestratorReplanInput
orchestrated = record {
  original_plan = given;
  failed_step = target;
  replan_reason = ReplanReason.locator_not_found;
  user_message = "replan";
}

ask_settles :
    (message : String) (w : ℕ) → (r : Settled String) × (w' : ℕ) × (ask message w ≡ done r w')
ask_settles message zero = (rejected "timeout", 1, refl)
ask_settles message (suc n) = (fulfilled "{}", suc (suc n), refl)

replan-IsFor_example : Ensures (IsFor given) (replan text_of ask parse orchestrated)
replan-IsFor_example = replan-IsFor text_of ask parse orchestrated

replan_settles_example :
    (p : PlanPatch) × (w' : ℕ) × (replan text_of ask parse orchestrated 0 ≡ done p w')
replan_settles_example = replan_settles text_of ask parse orchestrated ask_settles 0
