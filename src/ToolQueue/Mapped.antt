-- ===== src/ToolQueue/Mapped.antt =====
-- The schema of execution-plan.schema.ts on what the mapper gives.
use Prim.Native.String.append
use qa_agent.Prelude.{
  ℕ, suc, ◌+◌, ◌≡◌, refl, sym, ◌∙◌, String, ◌<>◌, true, not, ◌&&◌, List, [], ◌∷◌, Option, all,
  arith, str_eq, eq_iff, Bool-cases, inl, inr,
}
use qa_agent.Plan.Schema.{
  Stringify, non_empty, optional, is_empty, valid_condition, valid_body, valid_action, valid_step,
  valid_plan, has_ephemeral_id,
}
use qa_agent.ToolQueue.Items.{
  ToolCall, ToolQueueItem, ScanMode, mode_name, key_name, tool_name, valid_call, valid_item,
}
use qa_agent.ToolQueue.{
  pad_three, MapperInput, map_item, map_items, map_queue, action_of, postcondition_of,
}

non_empty-append : (p s : String) → non_empty p ≡ true → non_empty (p <> s) ≡ true
non_empty-append String.[] s h = cc
non_empty-append (String.◌∷◌ c p) s h = elim (Bool-cases (str_eq (String.◌∷◌ c p <> s) "")) [
  | inl e ↦ absurd (cons_empty (sym (append.cons c p s) ∙ (eq_iff (String.◌∷◌ c p <> s) "").0 e))
  | inr e ↦ ground (arith, e)
]
  where
    cons_empty : String.◌∷◌ c (p <> s) ≡ "" → ⊥
    cons_empty e = cc

call-action : (c : ToolCall) → valid_call c ≡ true → valid_action (action_of c) ≡ true
unfolding valid_call valid_action valid_body action_of mode_name
call-action (ToolCall.navigator_open url _) h = rw (non_empty-append "Navigate to " url refl) refl
call-action (ToolCall.observer_capture _ _ _ _) h = refl
call-action (ToolCall.actor_click target _) h = ground (arith, h)
call-action (ToolCall.actor_fill target value) h =
    ground (arith, h, non_empty-append "Fill field with \"" (value <> "\"") refl)
call-action (ToolCall.actor_type text delay) h =
    ground (arith, h, non_empty-append "Type text: " text refl)
call-action (ToolCall.actor_press key) h =
    rw (non_empty-append "Press key: " (key_name key) refl) refl
call-action (ToolCall.validator_state _) h = refl
call-action (ToolCall.explorer_scan ScanMode.scan_clickables) h = refl
call-action (ToolCall.explorer_scan ScanMode.scan_inputs) h = refl
call-action (ToolCall.explorer_scan ScanMode.scan_accessibility_tree) h = refl
call-action (ToolCall.explorer_scan ScanMode.scan_semantic_candidates) h = refl
call-action (ToolCall.explorer_scan ScanMode.full_observation) h = refl

call-postcondition :
    (c : ToolCall) → valid_call c ≡ true → valid_condition (postcondition_of c) ≡ true
unfolding valid_call valid_condition postcondition_of
call-postcondition (ToolCall.navigator_open url _) h = refl
call-postcondition (ToolCall.observer_capture _ _ _ _) h = refl
call-postcondition (ToolCall.actor_click target _) h = ground (arith, h)
call-postcondition (ToolCall.actor_fill target value) h = ground (arith, h)
call-postcondition (ToolCall.actor_type text delay) h = refl
call-postcondition (ToolCall.actor_press _) h = refl
call-postcondition (ToolCall.validator_state _) h = h
call-postcondition (ToolCall.explorer_scan mode) h = refl

named-tool : (c : ToolCall) (rest : String) → non_empty (tool_name c <> rest) ≡ true
unfolding tool_name
named-tool (ToolCall.navigator_open _ _) rest = non_empty-append "navigator.open" rest refl
named-tool (ToolCall.actor_click _ _) rest = non_empty-append "actor.click" rest refl
named-tool (ToolCall.actor_fill _ _) rest = non_empty-append "actor.fill" rest refl
named-tool (ToolCall.actor_type _ _) rest = non_empty-append "actor.type" rest refl
named-tool (ToolCall.actor_press _) rest = non_empty-append "actor.press" rest refl
named-tool (ToolCall.validator_state _) rest = non_empty-append "validator.state" rest refl
named-tool (ToolCall.explorer_scan _) rest = non_empty-append "explorer.scan" rest refl
named-tool (ToolCall.observer_capture _ _ _ _) rest = non_empty-append "observer.capture" rest refl

module _ (params_text : ToolCall → String) (scenario_id task_id : Option String)
    (scenario_ok : optional non_empty scenario_id ≡ true)
    (task_ok : optional non_empty task_id ≡ true) where
  item-valid_step :
      (item : ToolQueueItem) (i : ℕ)
      → valid_item item ≡ true
      → valid_step (map_item params_text scenario_id task_id item i) ≡ true
  unfolding valid_step map_item valid_item valid_action
  item-valid_step item i h =
      let good : valid_call item.call ≡ true = ground (arith, h) in
      ground (
        arith,
        scenario_ok,
        task_ok,
        non_empty-append "step-" (pad_three (i + 1)) refl,
        named-tool item.call (": " <> params_text item.call),
        call-action item.call good,
        call-postcondition item.call good,
      )

  items-valid_step :
      (queue : List ToolQueueItem) (i : ℕ)
      → all valid_item queue ≡ true
      → all valid_step (map_items params_text scenario_id task_id queue i) ≡ true
  unfolding map_items
  items-valid_step [] i h = refl
  items-valid_step (item ∷ queue) i h = ground (
    arith,
    h,
    item-valid_step item i ground (arith, h),
    items-valid_step queue (suc i) ground (arith, h),
  )

items-is_empty :
    (params_text : ToolCall → String) (scenario_id task_id : Option String)
    (queue : List ToolQueueItem) (i : ℕ)
    → is_empty (map_items params_text scenario_id task_id queue i) ≡ is_empty queue
unfolding map_items
items-is_empty params_text scenario_id task_id [] i = refl
items-is_empty params_text scenario_id task_id (item ∷ queue) i = refl

-- Where the parameters of every call in the queue meet their schema, and the ids that are given are
-- not empty, the plan of the mapper meets its schema exactly if the queue is not empty, the id and
-- the goal of the plan are not, and the text of the plan has no ephemeral id of an element.
pub map_queue-valid_plan :
    (json : Stringify) (params_text : ToolCall → String) (input : MapperInput)
    → all valid_item input.task_queue ≡ true
    → optional non_empty input.scenario_id ≡ true
    → optional non_empty input.task_id ≡ true
    → valid_plan json (map_queue params_text input) ≡ (
        not (is_empty input.task_queue)
        && (non_empty input.plan_id
            && (non_empty input.goal
                && not (has_ephemeral_id (json.plan (map_queue params_text input))))))
unfolding valid_plan map_queue map_items
map_queue-valid_plan json params_text input h scenario_ok task_ok = ground (
  arith,
  items-valid_step params_text input.scenario_id input.task_id scenario_ok task_ok input.task_queue
      0 h,
  items-is_empty params_text input.scenario_id input.task_id input.task_queue 0,
)
