-- ===== src/ToolQueue/Resumed.antt =====
-- What a patch of the orchestrator does to the plan that it was made for.
use qa_agent.Prelude.{
  show, ℕ, zero, suc, ◌≡◌, refl, sym, ap, subst, ◌∙◌, String, List, [], ◌∷◌, ◌++◌, Option, none,
  some, get_elem?, take, arith, eq_iff,
}
use qa_agent.Domain.Config.{RunConfig}
use qa_agent.Domain.Plan.{ExecutionStep, PlanPatch, PatchOperation}
use qa_agent.Domain.Run.{ok}
use qa_agent.Effect.{fulfilled}
use qa_agent.Plan.Schema.{Stringify}
use qa_agent.Plan.Patch.{
  AppliedPlanPatch, apply, change, locate, finish, applied_to, splice, step_index, next_plan,
}
use qa_agent.Plan.Patch.Applied.{apply-parts}
use qa_agent.ToolQueue.Items.{ToolCall, ToolQueueItem, ReplanAction}
use qa_agent.ToolQueue.{map_items, map_item}
use qa_agent.ToolQueue.Replan.{ReplanToPatchInput, replacement_patch, replace_from, map_replan}

module _ (json : Stringify) (config : RunConfig) (params_text : ToolCall → String)
    (input : ReplanToPatchInput) (queue : List ToolQueueItem) (n : ℕ) (target : ExecutionStep)
    (p : PlanPatch) (a : AppliedPlanPatch) where
  -- The steps that the mapper makes of the queue.
  abbrev fresh : List ExecutionStep
  fresh = map_items params_text input.scenario_id input.task_id queue 0

  located :
      step_index input.original_plan.steps target.id ≡ some n
      → change json input.original_plan
          (replacement_patch params_text input target)
          PatchOperation.replace_remaining_steps
        ≡ ok a
      → a.plan
        ≡ next_plan input.original_plan
            (take n input.original_plan.steps ++ (replacement_patch params_text input target).steps)
  unfolding change locate finish applied_to splice replacement_patch
  located index changed = ground (arith, index, changed)

  fresh_steps :
      input.replan.task_queue ≡ some queue
      → (replacement_patch params_text input target).steps ≡ fresh
  unfolding replacement_patch
  fresh_steps given =
      ap {B = List ExecutionStep}
        (λ q. elim q [
          | none ↦ []
          | some items ↦ map_items params_text input.scenario_id input.task_id items 0
        ])
        given

  -- Where the mapper makes a patch of a queue that replaces the steps from position n + 1 on, no step
  -- before that position has the id of the step there, and the patch is applied to the plan, the new
  -- plan has the first n steps of the plan and then those of the queue.
  pub replan_resumes :
      input.replan.action ≡ ReplanAction.replace_remaining_steps
      → input.replan.from_step ≡ some (suc n)
      → input.replan.task_queue ≡ some queue
      → step_index input.original_plan.steps target.id ≡ some n
      → get_elem? input.original_plan.steps n ≡ some target
      → map_replan params_text input ≡ fulfilled p
      → apply json input.original_plan p config ≡ ok a
      → a.plan ≡ next_plan input.original_plan (take n input.original_plan.steps ++ fresh)
  unfolding map_replan replace_from replacement_patch
  replan_resumes action from given index found mapped applied =
      let same : replacement_patch params_text input target ≡ p =
        ground (arith, mapped, action, from, found) in
      let (_, _, _, _, changed) = apply-parts json input.original_plan p config applied in
      let made =
        located index
          (subst (λ q. change json input.original_plan q q.operation ≡ ok a) (sym same) changed) in
      made
      ∙ ap (λ l. next_plan input.original_plan (take n input.original_plan.steps ++ l))
          (fresh_steps given)

get_elem?-take :
    {A : Type 0} (xs ys : List A) (n : ℕ) {x : A}
    → get_elem? xs n ≡ some x
    → get_elem? (take n xs ++ ys) n ≡ get_elem? ys 0
get_elem?-take [] ys n h = cc
get_elem?-take (z ∷ xs) ys zero h = refl
get_elem?-take (z ∷ xs) ys (suc n) h = get_elem?-take xs ys n h

first_id :
    (params_text : ToolCall → String) (scenario_id task_id : Option String) (item : ToolQueueItem)
    → (map_item params_text scenario_id task_id item 0).id ≡ "step-001"
unfolding map_item show
first_id params_text scenario_id task_id item = refl

first_found :
    (first : ExecutionStep) (steps : List ExecutionStep) (id : String)
    → first.id ≡ id
    → step_index (first ∷ steps) id ≡ some 0
unfolding step_index
first_found first steps id h = ground (arith, (eq_iff first.id id).1 h)

module _ (json : Stringify) (config : RunConfig) (params_text : ToolCall → String)
    (input : ReplanToPatchInput) (item : ToolQueueItem) (queue : List ToolQueueItem)
    (first : ExecutionStep) (rest : List ExecutionStep) (n : ℕ) (target : ExecutionStep)
    (p : PlanPatch) (a : AppliedPlanPatch) where
  -- Under the same conditions, for a plan whose first step has the id that the mapper gives to first
  -- steps, and a queue with an item that replaces later steps: the step with which the new part begins
  -- has the id of the first step too, so that a later patch that names it is applied at the first step.
  pub replan_clashes :
      input.original_plan.steps ≡ first ∷ rest
      → first.id ≡ "step-001"
      → input.replan.action ≡ ReplanAction.replace_remaining_steps
      → input.replan.from_step ≡ some (suc (suc n))
      → input.replan.task_queue ≡ some (item ∷ queue)
      → step_index input.original_plan.steps target.id ≡ some (suc n)
      → get_elem? input.original_plan.steps (suc n) ≡ some target
      → map_replan params_text input ≡ fulfilled p
      → apply json input.original_plan p config ≡ ok a
      → (s : ExecutionStep) × (get_elem? a.plan.steps (suc n) ≡ some s)
        × (step_index a.plan.steps s.id ≡ some 0)
  unfolding map_items
  replan_clashes begins named action from given index found mapped applied =
      let fresh_step = map_item params_text input.scenario_id input.task_id item 0 in
      let steps =
        ap (λ q. q.steps)
          (replan_resumes json config params_text input (item ∷ queue) (suc n) target p a action
            from given index found mapped applied) in
      let id : fresh_step.id ≡ "step-001" =
        first_id params_text input.scenario_id input.task_id item in
      (
        fresh_step,
        ap (λ l. get_elem? l (suc n)) steps
            ∙ get_elem?-take input.original_plan.steps
                (map_items params_text input.scenario_id input.task_id (item ∷ queue) 0) (suc n)
                found,
        ap (λ l. step_index l fresh_step.id) steps
            ∙ (ap
                  (λ l.
                    step_index
                      (take (suc n) l
                        ++ map_items params_text input.scenario_id input.task_id (item ∷ queue) 0)
                      fresh_step.id)
                  begins
                ∙ first_found first _ fresh_step.id (named ∙ sym id)),
      )
