-- ===== src/Plan/Patch.antt =====
-- src/application/services/plan-patch-applier.service.ts: applying a patch to a plan.
pub mod Splice
pub mod Safety
pub mod Applied
use qa_agent.Prelude.{
  ℕ, suc, ◌+◌, String, ◌<>◌, Bool, true, false, not, ◌&&◌, List, [], ◌∷◌, ◌++◌, Option, none, some,
  str_eq, ◌==◌, leb, if◌then◌else◌, length, take, drop, any, find_index, or_else,
}
use qa_agent.Domain.Plan.{
  ExecutionStep, PlanPatch, PatchOperation, ExecutionPlan, ReplanReason, StepFailurePolicy,
}
use qa_agent.Domain.Run.{Result, ok, fail, schema, throw, ◌>>=◌, ◌>>◌}
use qa_agent.Domain.Config.{RunConfig}
use qa_agent.Policy.{Verdict, allowed, denied, validate_destructive_text}
use qa_agent.Plan.Schema.{Stringify, valid_patch, valid_plan, is_empty}

pub data PatchStatus : Type 0 where
  applied blocked : PatchStatus

pub record PatchHistory : Type 0 where
  pub base_plan_id : String
  pub base_plan_version : ℕ
  pub operation : PatchOperation
  pub step_id : Option String
  pub reason : String
  pub replan_reason : ReplanReason
  pub applied_plan_version : Option ℕ
  pub status : PatchStatus
  pub patch : PlanPatch

pub record AppliedPlanPatch : Type 0 where
  pub plan : ExecutionPlan
  pub history : PatchHistory

unfoldable pub history_of : PlanPatch → PatchStatus → Option ℕ → PatchHistory
history_of p status version = record {
  base_plan_id = p.base_plan_id;
  base_plan_version = p.base_plan_version;
  operation = p.operation;
  step_id = p.step_id;
  reason = p.reason;
  replan_reason = p.replan_reason;
  applied_plan_version = version;
  status = status;
  patch = p;
}

-- `steps.findIndex((step) => step.id === stepId)`
unfoldable pub step_index : List ExecutionStep → String → Option ℕ
step_index steps id = find_index (λ s. str_eq s.id id) steps

-- The new steps, for a patch of the steps at `index`.
unfoldable pub splice :
    PatchOperation → ℕ → List ExecutionStep → List ExecutionStep → List ExecutionStep
splice PatchOperation.insert_after index steps fresh =
    take (suc index) steps ++ (fresh ++ drop (suc index) steps)
splice PatchOperation.replace_step index steps fresh =
    take index steps ++ (fresh ++ drop (suc index) steps)
splice _ index steps fresh = take index steps ++ fresh

-- `affectedSteps`: the steps that the patch takes away.
pub affected_at : PatchOperation → Option ℕ → List ExecutionStep → List ExecutionStep
affected_at PatchOperation.replace_step (some index) steps = take 1 (drop index steps)
affected_at PatchOperation.replace_remaining_steps (some index) steps = drop index steps
affected_at _ _ steps = []

unfoldable pub affected_steps : ExecutionPlan → PlanPatch → List ExecutionStep
unfolding affected_at
affected_steps current p =
    affected_at p.operation (step_index current.steps (or_else p.step_id "")) current.steps

is_continue : StepFailurePolicy → Bool
is_continue StepFailurePolicy.continue_with_warning = true
is_continue _ = false

is_modal : ReplanReason → Bool
is_modal ReplanReason.modal_or_overlay_detected = true
is_modal _ = false

-- The checks of one step of a patch.
unfoldable pub check_step : RunConfig → ReplanReason → ExecutionStep → Result (Unit {0})
unfolding is_continue is_modal
check_step config reason s =
    elim (validate_destructive_text (s.description <> " " <> s.action.reason) config) [
      | denied code message ↦ throw code message
      | allowed ↦
          if is_continue s.on_failure && not (is_modal reason)
          then throw "WEAKENED_VALIDATION"
              "Patch cannot turn a functional step into CONTINUE_WITH_WARNING"
          else ok tt
    ]

unfoldable pub check_steps : RunConfig → ReplanReason → List ExecutionStep → Result (Unit {0})
check_steps config reason [] = ok tt
check_steps config reason (s ∷ ss) = do check_step config reason s; check_steps config reason ss

is_insert : PatchOperation → Bool
is_insert PatchOperation.insert_after = true
is_insert _ = false

-- The checks of one step that the patch takes away.
unfoldable pub check_original : PlanPatch → ExecutionStep → Result (Unit {0})
unfolding is_insert
check_original p original =
    if not (is_empty original.postconditions)
      && not (is_insert p.operation)
      && any (λ s. is_empty s.postconditions) p.steps
    then throw "WEAKENED_VALIDATION" "Patch cannot remove primary postconditions"
    else if not (is_empty original.assertions)
        && not (is_insert p.operation)
        && not (any (λ s. leb (length original.assertions) (length s.assertions)) p.steps)
    then throw "WEAKENED_VALIDATION" "Patch cannot remove critical business assertions"
    else ok tt

unfoldable pub check_originals : PlanPatch → List ExecutionStep → Result (Unit {0})
check_originals p [] = ok tt
check_originals p (s ∷ ss) = do check_original p s; check_originals p ss

unfoldable pub assert_patch_safety : ExecutionPlan → PlanPatch → RunConfig → Result (Unit {0})
assert_patch_safety current p config = do
  check_steps config p.replan_reason p.steps
  check_originals p (affected_steps current p)

-- `{ ...current, version: current.version + 1, steps }`
abbrev pub next_plan : ExecutionPlan → List ExecutionStep → ExecutionPlan
next_plan current steps = record current { version = current.version + 1; steps = steps }

unfoldable pub applied_to : ExecutionPlan → PlanPatch → List ExecutionStep → AppliedPlanPatch
unfolding history_of
applied_to current p steps = record {
  plan = next_plan current steps;
  history = history_of p PatchStatus.applied (some (current.version + 1));
}

module _ (json : Stringify) where
  -- `ExecutionPlanSchema.parse(…)` of the new plan, and its history.
  unfoldable pub finish : ExecutionPlan → PlanPatch → List ExecutionStep → Result AppliedPlanPatch
  unfolding applied_to
  finish current p steps =
      if valid_plan json (next_plan current steps)
      then ok (applied_to current p steps)
      else fail schema

  unfoldable pub locate : ExecutionPlan → PlanPatch → PatchOperation → Result AppliedPlanPatch
  locate current p operation = elim (step_index current.steps (or_else p.step_id "")) [
    | none ↦ throw "PATCH_STEP_NOT_FOUND" ("Step not found for patch: " <> or_else p.step_id "")
    | some index ↦ finish current p (splice operation index current.steps p.steps)
  ]

  -- What follows the checks.
  unfoldable pub change : ExecutionPlan → PlanPatch → PatchOperation → Result AppliedPlanPatch
  change current p PatchOperation.mark_blocked =
      ok (record { plan = current; history = history_of p PatchStatus.blocked none })
  change current p operation = locate current p operation

  unfoldable pub apply : ExecutionPlan → PlanPatch → RunConfig → Result AppliedPlanPatch
  unfolding change
  apply current p config =
      if not (valid_patch json p)
      then fail schema
      else if not (str_eq p.base_plan_id current.plan_id)
      then throw "STALE_PLAN_PATCH" "Patch basePlanId does not match current plan"
      else if not (p.base_plan_version == current.version)
      then throw "STALE_PLAN_PATCH" "Patch basePlanVersion does not match current plan version"
      else do assert_patch_safety current p config; change current p p.operation
