-- ===== src/Plan/Patch/Applied.antt =====
-- What a successful patch has changed, and when a patch is stale.
use qa_agent.Prelude.{
  All, ℕ, ◌+◌, ◌≡◌, refl, sym, ap, subst, ◌≢◌, ◌⊎◌, inl, inr, true, List, some, arith, eq_iff,
  ==_iff, or_else, Bool-cases, Option-cases,
}
use qa_agent.Domain.Plan.{ExecutionStep, PlanPatch, PatchOperation, ExecutionPlan}
use qa_agent.Domain.Run.{ok, ok-injective, throw}
use qa_agent.Domain.Config.{RunConfig}
use qa_agent.Plan.Schema.{Stringify, valid_patch, valid_plan}
use qa_agent.Plan.Patch.{
  AppliedPlanPatch, PatchStatus, affected_at, affected_steps, step_index, splice, finish, locate,
  change, history_of, applied_to, next_plan, assert_patch_safety, apply,
}
use qa_agent.Plan.Patch.Splice.{Edit, splice-Edit}
use qa_agent.Plan.Patch.Safety.{IsGuarded, IsAcceptable, patch-IsAcceptable, affected-IsGuarded}

-- The new plan: the next version, valid, with one part of the steps exchanged and nothing else.
pub record IsApplied (json : Stringify) (current : ExecutionPlan) (p : PlanPatch)
    (a : AppliedPlanPatch) : Type 0 where
  pub status : a.history.status ≡ PatchStatus.applied
  pub plan : a.plan ≡ next_plan current a.plan.steps
  pub valid : valid_plan json a.plan ≡ true
  pub edit : Edit p.operation (or_else p.step_id "") p.steps current.steps a.plan.steps
  pub guarded : All (IsGuarded p.steps) edit.removed

-- A blocked patch leaves the plan alone.
pub record IsBlocked (current : ExecutionPlan) (p : PlanPatch) (a : AppliedPlanPatch) : Type 0 where
  pub status : a.history.status ≡ PatchStatus.blocked
  pub plan : a.plan ≡ current
  pub operation : p.operation ≡ PatchOperation.mark_blocked

module _ (json : Stringify) (current : ExecutionPlan) (p : PlanPatch) (a : AppliedPlanPatch) where
  finish-IsApplied :
      (steps : List ExecutionStep)
      → finish json current p steps ≡ ok a
      → (e : Edit p.operation (or_else p.step_id "") p.steps current.steps steps)
      → All (IsGuarded p.steps) e.removed
      → IsApplied json current p a
  unfolding finish
  finish-IsApplied steps h e k = elim (Bool-cases (valid_plan json (next_plan current steps))) [
    | inl fits ↦
        let same : applied_to current p steps ≡ a = ground arith in
        rw (← same) (record { status = refl; plan = refl; valid = fits; edit = e; guarded = k })
    | inr no_fit ↦ absurd (ground arith)
  ]

  spliced-IsApplied :
      (i : ℕ)
      → p.operation ≢ PatchOperation.mark_blocked
      → step_index current.steps (or_else p.step_id "") ≡ some i
      → All (IsGuarded p.steps) (affected_at p.operation (some i) current.steps)
      → finish json current p (splice p.operation i current.steps p.steps) ≡ ok a
      → IsApplied json current p a
  spliced-IsApplied i op found k h =
      let (e, same) = splice-Edit current.steps p.steps _ i found p.operation op in
      finish-IsApplied _ h e (rw same k)

  -- The three operations that look for the step go on in the same way.
  located-IsApplied :
      p.operation ≢ PatchOperation.mark_blocked
      → All (IsGuarded p.steps) (affected_steps current p)
      → locate json current p p.operation ≡ ok a
      → IsApplied json current p a
  unfolding locate affected_steps
  located-IsApplied op k h = elim (Option-cases (step_index current.steps (or_else p.step_id ""))) [
    | inl missing ↦ absurd (ground arith)
    | inr (i, found) ↦
        let k' : All (IsGuarded p.steps) (affected_at p.operation (some i) current.steps) =
          rw found at k in
        spliced-IsApplied i op found k' (ground arith)
  ]

  change-cases :
      (o : PatchOperation)
      → p.operation ≡ o
      → All (IsGuarded p.steps) (affected_steps current p)
      → change json current p o ≡ ok a
      → IsApplied json current p a ⊎ IsBlocked current p a
  unfolding change history_of
  change-cases PatchOperation.mark_blocked e k h = inr (record {
    status = sym (ap (λ b. b.history.status) (ok-injective h));
    plan = sym (ap (λ b. b.plan) (ok-injective h));
    operation = e;
  })
  change-cases o e k h = inl (
      located-IsApplied (λ m. ground arith) k
        (subst (λ q. locate json current p q ≡ ok a) (sym e) h))

-- What `apply` has checked of a patch that it accepts.
pub apply-parts :
    (json : Stringify) (current : ExecutionPlan) (p : PlanPatch) (config : RunConfig)
    {a : AppliedPlanPatch}
    → apply json current p config ≡ ok a
    → (valid_patch json p ≡ true)
      × (p.base_plan_id ≡ current.plan_id)
      × (p.base_plan_version ≡ current.version)
      × (assert_patch_safety current p config ≡ ok tt)
      × (change json current p p.operation ≡ ok a)
unfolding apply
apply-parts json current p config h =
    ground
      (arith, eq_iff p.base_plan_id current.plan_id, ==_iff p.base_plan_version current.version)

-- An accepted patch is fresh: it names the plan and the version that it is applied to. Then it
-- either blocks, with the plan left as it is, or gives a valid plan of the next version in which one
-- contiguous part of the steps, at the step that the patch names, is exchanged for its own steps; for
-- each step taken away that has assertions, some step of the patch has at least as many.
pub apply_result :
    (json : Stringify) (current : ExecutionPlan) (p : PlanPatch) (config : RunConfig)
    (a : AppliedPlanPatch)
    → apply json current p config ≡ ok a
    → (p.base_plan_id ≡ current.plan_id)
      × (p.base_plan_version ≡ current.version)
      × (IsApplied json current p a ⊎ IsBlocked current p a)
apply_result json current p config a h =
    let (_, same_id, same_version, safe, changed) = apply-parts json current p config h in
    (
      same_id,
      same_version,
      change-cases json current p a p.operation refl (affected-IsGuarded current p config safe)
          changed,
    )

-- A patch that was applied is stale for the plan that it made: a second application is refused.
pub apply_twice :
    (json : Stringify) (current : ExecutionPlan) (p : PlanPatch) (config later : RunConfig)
    (a : AppliedPlanPatch)
    → apply json current p config ≡ ok a
    → a.history.status ≡ PatchStatus.applied
    → apply json a.plan p later
      ≡ throw "STALE_PLAN_PATCH" "Patch basePlanVersion does not match current plan version"
unfolding apply
apply_twice json current p config later a h st =
    let (fits, same_id, same_version, _, _) = apply-parts json current p config h in
    elim (apply_result json current p config a h).2 [
      | inl done ↦
          let at_id : a.plan.plan_id ≡ current.plan_id = ap (λ q. q.plan_id) done.plan in
          let at_version : a.plan.version ≡ current.version + 1 = ap (λ q. q.version) done.plan in
          ground (arith, eq_iff p.base_plan_id a.plan.plan_id)
      | inr stopped ↦ absurd (ground (arith, stopped.status))
    ]

-- No step that an accepted patch brings in has a destructive word in its description or the reason of
-- its action, unless the policy of the run is ALLOW; and a step has CONTINUE_WITH_WARNING only if the
-- replan was for a modal or an overlay.
pub apply-IsAcceptable :
    (json : Stringify) (current : ExecutionPlan) (p : PlanPatch) (config : RunConfig)
    (a : AppliedPlanPatch)
    → apply json current p config ≡ ok a
    → All (IsAcceptable config p.replan_reason) p.steps
apply-IsAcceptable json current p config a h =
    patch-IsAcceptable current p config (apply-parts json current p config h).3
