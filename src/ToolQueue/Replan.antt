-- ===== src/ToolQueue/Replan.antt =====
-- src/application/services/replan-queue-to-plan-patch.mapper.ts and orchestrator-replan.service.ts
-- beside it: a new queue of the orchestrator as a patch of the plan.
use qa_agent.Prelude.{ℕ, zero, suc, String, ◌<>◌, [], Option, none, some, get_elem?, show}
use qa_agent.Domain.Plan.{ExecutionPlan, ExecutionStep, PlanPatch, PatchOperation, ReplanReason}
use qa_agent.Effect.{Eff, Settled, fulfilled, rejected, Call, ◌>>=◌, pure}
use qa_agent.ToolQueue.Items.{ToolCall, ReplanQueue, ReplanAction}
use qa_agent.ToolQueue.{map_items}

pub record ReplanToPatchInput : Type 0 where
  pub replan : ReplanQueue
  pub original_plan : ExecutionPlan
  pub replan_reason : ReplanReason
  pub scenario_id : Option String
  pub task_id : Option String

-- A patch that blocks the plan.
unfoldable pub blocked_patch : ExecutionPlan → ReplanReason → String → PlanPatch
blocked_patch plan replan_reason reason = record {
  base_plan_id = plan.plan_id;
  base_plan_version = plan.version;
  operation = PatchOperation.mark_blocked;
  step_id = none;
  reason = reason;
  replan_reason = replan_reason;
  steps = [];
}

module _ (params_text : ToolCall → String) where
  -- The patch that puts the new steps where the target is.
  unfoldable pub replacement_patch : ReplanToPatchInput → ExecutionStep → PlanPatch
  replacement_patch input target = record {
    base_plan_id = input.original_plan.plan_id;
    base_plan_version = input.original_plan.version;
    operation = PatchOperation.replace_remaining_steps;
    step_id = some target.id;
    reason = input.replan.reasoning;
    replan_reason = input.replan_reason;
    steps = elim (input.replan.task_queue) [
      | none ↦ []
      | some queue ↦ map_items params_text input.scenario_id input.task_id queue 0
    ];
  }

  -- `replaceFrom` of a position that counts from 1; 0 is refused like a missing one.
  unfoldable pub replace_from : ReplanToPatchInput → Option ℕ → Settled PlanPatch
  unfolding replacement_patch
  replace_from input none = rejected "replace_remaining_steps requires fromStep"
  replace_from input (some zero) = rejected "replace_remaining_steps requires fromStep"
  replace_from input (some (suc n)) = elim (get_elem? input.original_plan.steps n) [
    | none ↦ rejected ("Step " <> show (suc n) <> " not found in original plan")
    | some target ↦ fulfilled (replacement_patch input target)
  ]

  -- `map`, which throws an error with a message or gives a patch.
  unfoldable pub map_replan : ReplanToPatchInput → Settled PlanPatch
  unfolding replace_from
  map_replan input = elim (input.replan.action) [
    | ReplanAction.abort ↦
        fulfilled (blocked_patch input.original_plan input.replan_reason input.replan.reasoning)
    | ReplanAction.replace_remaining_steps ↦ replace_from input input.replan.from_step
  ]

pub record OrchestratorReplanInput : Type 0 where
  pub original_plan : ExecutionPlan
  pub failed_step : ExecutionStep
  pub replan_reason : ReplanReason
  pub user_message : String

-- The call of the LLM, and the parse of its answer as JSON of the schema.
module _ {W : Type 0} (params_text : ToolCall → String) (llm_call : String → Call W String)
    (parse : String → Settled ReplanQueue) where
  -- The body of the `try`.
  unfoldable pub answer_patch : OrchestratorReplanInput → Settled String → Settled PlanPatch
  answer_patch input (rejected message) = rejected message
  answer_patch input (fulfilled raw) = elim (parse raw) [
    | rejected message ↦ rejected message
    | fulfilled queue ↦ map_replan params_text (record {
      replan = queue;
      original_plan = input.original_plan;
      replan_reason = input.replan_reason;
      scenario_id = input.failed_step.scenario_id;
      task_id = input.failed_step.task_id;
    })
  ]

  -- The loop over the attempts that are left, with the last error.
  unfoldable pub replan_attempts : ℕ → OrchestratorReplanInput → String → Eff W PlanPatch
  unfolding answer_patch
  replan_attempts zero input last_error = pure (
      blocked_patch input.original_plan input.replan_reason
        ("Replan failed after 2 attempts: " <> last_error))
  replan_attempts (suc left) input last_error = llm_call input.user_message >>= λ r.
      elim (answer_patch input r) [
        | fulfilled patch ↦ pure patch
        | rejected message ↦ replan_attempts left input message
      ]

  unfoldable pub replan : OrchestratorReplanInput → Eff W PlanPatch
  unfolding replan_attempts
  replan input = replan_attempts 2 input "undefined"
