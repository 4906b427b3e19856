-- ===== src/Plan/Patch/Safety.antt =====
-- What the safety checks of a patch guarantee.
use qa_agent.Prelude.{
  ℕ, ◌<>◌, ◌≡◌, ◌≢◌, true, ◌⊎◌, inl, inr, or_else, Option, List, [], ◌∷◌, arith, All, any, leb,
  length,
}
use qa_agent.Domain.Plan.{
  ExecutionStep, PlanPatch, PatchOperation, ExecutionPlan, ReplanReason, StepFailurePolicy,
  DestructiveActionPolicy,
}
use qa_agent.Domain.Run.{ok}
use qa_agent.Domain.Config.{RunConfig}
use qa_agent.Policy.Words.{Destructive}
use qa_agent.Policy.Laws.{validate_destructive_text_iff}
use qa_agent.Plan.Patch.{
  step_index, check_step, check_steps, check_original, check_originals, affected_at, affected_steps,
  assert_patch_safety,
}

-- Some fresh step has at least as many assertions as the step taken away, if that has any.
abbrev pub IsGuarded : List ExecutionStep → ExecutionStep → Type 0
IsGuarded fresh original =
    original.assertions ≢ []
    → any (λ s. leb (length original.assertions) (length s.assertions)) fresh ≡ true

-- A step that a patch may bring in: without a destructive word, except under the policy ALLOW of the
-- run, and with its checks not weakened to warnings, except against a modal or an overlay.
abbrev pub IsAcceptable : RunConfig → ReplanReason → ExecutionStep → Type 0
IsAcceptable config reason s =
    ((Destructive (s.description <> " " <> s.action.reason) → ⊥)
      ⊎ (config.destructive_action_policy ≡ DestructiveActionPolicy.allow))
    × (s.on_failure ≡ StepFailurePolicy.continue_with_warning
        → reason ≡ ReplanReason.modal_or_overlay_detected)

check_step-IsAcceptable :
    (config : RunConfig) (reason : ReplanReason) (s : ExecutionStep)
    → check_step config reason s ≡ ok tt
    → IsAcceptable config reason s
unfolding check_step
check_step-IsAcceptable config reason s h =
    ((validate_destructive_text_iff _ config).0 (ground (arith, h)), λ e. ground arith)

check_steps-All :
    (config : RunConfig) (reason : ReplanReason) (ss : List ExecutionStep)
    → check_steps config reason ss ≡ ok tt
    → All (IsAcceptable config reason) ss
unfolding check_steps
check_steps-All config reason [] h = tt
check_steps-All config reason (s ∷ ss) h = (
  check_step-IsAcceptable config reason s (ground arith),
  check_steps-All config reason ss (ground arith),
)

check_original-IsGuarded :
    (p : PlanPatch) (s : ExecutionStep)
    → p.operation ≢ PatchOperation.insert_after
    → check_original p s ≡ ok tt
    → IsGuarded p.steps s
unfolding check_original
check_original-IsGuarded p s op h ne = ground arith

check_originals-All :
    (p : PlanPatch) (ss : List ExecutionStep)
    → p.operation ≢ PatchOperation.insert_after
    → check_originals p ss ≡ ok tt
    → All (IsGuarded p.steps) ss
unfolding check_originals
check_originals-All p [] op h = tt
check_originals-All p (s ∷ ss) op h =
    (check_original-IsGuarded p s op (ground arith), check_originals-All p ss op (ground arith))

-- An insertion takes no step away.
affected_at-insert :
    (p : PlanPatch) (i : Option ℕ) (steps : List ExecutionStep)
    → (p.operation ≢ PatchOperation.insert_after) ⊎ (affected_at p.operation i steps ≡ [])
unfolding affected_at
affected_at-insert p i steps = ground arith

module _ (current : ExecutionPlan) (p : PlanPatch) (config : RunConfig)
    (safe : assert_patch_safety current p config ≡ ok tt) where
  -- Every step that an accepted patch brings in is acceptable under the policy of the run.
  pub patch-IsAcceptable : All (IsAcceptable config p.replan_reason) p.steps
  unfolding assert_patch_safety
  patch-IsAcceptable = check_steps-All config p.replan_reason p.steps (ground arith)

  pub affected-IsGuarded : All (IsGuarded p.steps) (affected_steps current p)
  unfolding assert_patch_safety affected_steps
  affected-IsGuarded =
      let i = step_index current.steps (or_else p.step_id "") in
      elim (affected_at-insert p i current.steps) [
        | inl op ↦ check_originals-All p (affected_at p.operation i current.steps) op (ground arith)
        | inr nothing ↦ rw nothing tt
      ]
