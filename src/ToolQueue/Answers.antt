-- ===== src/ToolQueue/Answers.antt =====
-- What the orchestrator answers when it is asked for a new queue.
use qa_agent.Prelude.{
  ℕ, zero, suc, ◌≡◌, refl, ◌∙◌, ◌⊎◌, inl, inr, String, [], Option, none, some, get_elem?,
}
use qa_agent.Domain.Plan.{ExecutionPlan, ExecutionStep, PlanPatch, PatchOperation, ReplanReason}
use qa_agent.Effect.{Eff, done, Settled, fulfilled, rejected, Call, bind_done, pure}
use qa_agent.Effect.Ensures.{Ensures, Ensures-pure, Ensures-bind}
use qa_agent.ToolQueue.Items.{ToolCall, ReplanQueue, ReplanAction}
use qa_agent.ToolQueue.Replan.{
  ReplanToPatchInput, blocked_patch, replacement_patch, replace_from, map_replan,
  OrchestratorReplanInput, answer_patch, replan_attempts, replan,
}

-- A patch for the plan as it is, which blocks it or replaces its steps from one of them on.
pub record IsFor (plan : ExecutionPlan) (p : PlanPatch) : Type 0 where
  pub base_id : p.base_plan_id ≡ plan.plan_id
  pub base_version : p.base_plan_version ≡ plan.version
  pub aim :
      ((p.operation ≡ PatchOperation.mark_blocked) × (p.steps ≡ []))
      ⊎ ((p.operation ≡ PatchOperation.replace_remaining_steps)
          × ((n : ℕ) × (target : ExecutionStep) × (get_elem? plan.steps n ≡ some target)
              × (p.step_id ≡ some target.id)))

blocked_patch-IsFor :
    (plan : ExecutionPlan) (reason : ReplanReason) (message : String)
    → IsFor plan (blocked_patch plan reason message)
unfolding blocked_patch
blocked_patch-IsFor plan reason message = record {
  base_id = refl;
  base_version = refl;
  aim = inl (refl, refl);
}

-- What a settled patch is for.
abbrev Aims : ExecutionPlan → Settled PlanPatch → Type 0
Aims plan (fulfilled p) = IsFor plan p
Aims plan (rejected message) = Unit

module _ (params_text : ToolCall → String) where
  found-Aims :
      (input : ReplanToPatchInput) (n : ℕ) (o : Option ExecutionStep)
      → get_elem? input.original_plan.steps n ≡ o
      → (message : String)
      → Aims input.original_plan (elim o [
        | none ↦ rejected message
        | some target ↦ fulfilled (replacement_patch params_text input target)
      ])
  unfolding replacement_patch
  found-Aims input n none e message = tt
  found-Aims input n (some target) e message = record {
    base_id = refl;
    base_version = refl;
    aim = inr (refl, (n, target, e, refl));
  }

  replace_from-Aims :
      (input : ReplanToPatchInput) (from : Option ℕ)
      → Aims input.original_plan (replace_from params_text input from)
  unfolding replace_from
  replace_from-Aims input none = tt
  replace_from-Aims input (some zero) = tt
  replace_from-Aims input (some (suc n)) =
      found-Aims input n (get_elem? input.original_plan.steps n) refl _

  map_replan-Aims :
      (input : ReplanToPatchInput) → Aims input.original_plan (map_replan params_text input)
  unfolding map_replan
  map_replan-Aims input = go input.replan.action
    where
      go :
          (action : ReplanAction)
          → Aims input.original_plan (elim action [
            | ReplanAction.abort ↦
                fulfilled
                  (blocked_patch input.original_plan input.replan_reason input.replan.reasoning)
            | ReplanAction.replace_remaining_steps ↦
                replace_from params_text input input.replan.from_step
          ])
      go ReplanAction.abort = blocked_patch-IsFor _ _ _
      go ReplanAction.replace_remaining_steps = replace_from-Aims input input.replan.from_step

module _ {W : Type 0} (params_text : ToolCall → String) (llm_call : String → Call W String)
    (parse : String → Settled ReplanQueue) (input : OrchestratorReplanInput) where
  answer-Aims :
      (r : Settled String)
      → Aims input.original_plan (answer_patch params_text llm_call parse input r)
  unfolding answer_patch
  answer-Aims (rejected message) = tt
  answer-Aims (fulfilled raw) = go (parse raw)
    where
      go :
          (q : Settled ReplanQueue)
          → Aims input.original_plan (elim q [
            | rejected message ↦ rejected message
            | fulfilled queue ↦ map_replan params_text (record {
              replan = queue;
              original_plan = input.original_plan;
              replan_reason = input.replan_reason;
              scenario_id = input.failed_step.scenario_id;
              task_id = input.failed_step.task_id;
            })
          ])
      go (rejected message) = tt
      go (fulfilled queue) = map_replan-Aims params_text _

  settled-Ensures :
      (again : String → Eff W PlanPatch)
      → ((message : String) → Ensures (IsFor input.original_plan) (again message))
      → (s : Settled PlanPatch) → Aims input.original_plan s
      → Ensures {W = W}
          (IsFor input.original_plan)
          (elim s [ fulfilled patch ↦ pure patch | rejected message ↦ again message ])
  settled-Ensures again h (fulfilled patch) aims = Ensures-pure patch aims
  settled-Ensures again h (rejected message) aims = h message

  attempts-Ensures :
      (left : ℕ) (last_error : String)
      → Ensures
          (IsFor input.original_plan)
          (replan_attempts params_text llm_call parse left input last_error)
  unfolding replan_attempts
  attempts-Ensures zero last_error = Ensures-pure _ (blocked_patch-IsFor _ _ _)
  attempts-Ensures (suc left) last_error = Ensures-bind _ _ λ r.
      settled-Ensures _ (attempts-Ensures left) (answer_patch params_text llm_call parse input r)
        (answer-Aims r)

  -- A patch of the orchestrator is for the plan as it was given, its id and its version: it blocks
  -- the plan, without steps, or replaces the steps from one of the plan on, which it names.
  pub replan-IsFor : Ensures (IsFor input.original_plan) (replan params_text llm_call parse input)
  unfolding replan
  replan-IsFor = attempts-Ensures 2 "undefined"

  attempts_settle :
      ((message : String) (w : W)
        → (r : Settled String) × (w' : W) × (llm_call message w ≡ done r w'))
      → (left : ℕ) (last_error : String) (w : W)
      → (p : PlanPatch) × (w' : W) × (replan_attempts params_text llm_call parse left input
            last_error w
          ≡ done p w')
  unfolding replan_attempts pure
  attempts_settle calls zero last_error w = (_, w, refl)
  attempts_settle calls (suc left) last_error w =
      let (r, v, called) = calls input.user_message w in
      let (p, w', e) =
        go v (λ message. attempts_settle calls left message v)
          (answer_patch params_text llm_call parse input r) in
      (p, w', bind_done (llm_call input.user_message) _ w called ∙ e)
    where
      go :
          (v : W)
          → ((message : String)
              → (p : PlanPatch) × (w' : W) × (replan_attempts params_text llm_call parse left input
                    message v
                  ≡ done p w'))
          → (s : Settled PlanPatch)
          → (p : PlanPatch) × (w' : W) × ((elim s as (λ _. Eff W PlanPatch) [
            | fulfilled patch ↦ pure patch
            | rejected message ↦ replan_attempts params_text llm_call parse left input message
          ])
                v
              ≡ done p w')
      go v again (fulfilled patch) = (patch, v, refl)
      go v again (rejected message) = again message

  -- Whatever the LLM answers, and also if each of its calls throws an error, a replan returns a patch.
  pub replan_settles :
      ((message : String) (w : W)
        → (r : Settled String) × (w' : W) × (llm_call message w ≡ done r w'))
      → (w : W)
      → (p : PlanPatch) × (w' : W) × (replan params_text llm_call parse input w ≡ done p w')
  unfolding replan
  replan_settles calls w = attempts_settle calls 2 "undefined" w
