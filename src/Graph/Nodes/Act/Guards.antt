-- ===== src/Graph/Nodes/Act/Guards.antt =====
-- What the two guards let through.
use qa_agent.Prelude.{
  String, ◌<>◌, ◌≡◌, refl, sym, ◌⊎◌, inl, inr, true, false, [], ◌∷◌, ◌++◌, some, get_elem?, subst,
}
use qa_agent.Domain.Action.{QaAction}
use qa_agent.Domain.Plan.{ExecutionStep, DestructiveActionPolicy}
use qa_agent.Domain.Config.{RunConfig}
use qa_agent.Domain.Run.{QaStep}
use qa_agent.Effect.Ensures.{
  Ensures, Ensures-pure, Ensures-pause, Ensures-bind, Ensures-bind_with, Ensures-need,
}
use qa_agent.Policy
use qa_agent.Policy.{Verdict, allowed, denied}
use qa_agent.Policy.Words.{Destructive}
use qa_agent.Policy.Laws.{validate_destructive_text_iff}
use qa_agent.Ports.{Ports}
use qa_agent.Graph.State.{State}
use qa_agent.Graph.Nodes.Act.{
  step_at, denied_with, guard_verdict, guard_action, policy_guard_node, guard_text, guard_under,
  destructive_guard_node,
}

module _ (ports : Ports) (config : RunConfig) where
  open ports use {World, Snapshot}

  -- The policy allows the action and the state is as it was, or it denies the action and the run is
  -- over, with the message of the policy and one more step.
  pub data Guarded (s : State Snapshot) (action : QaAction) (t : State Snapshot) : Type 0 where
    goes_on : Policy.validate action config s.attempts ≡ allowed → t ≡ s → Guarded s action t
    stopped :
        (code message : String)
        → (qa_step : QaStep) → Policy.validate action config s.attempts ≡ denied code message
        → t.done ≡ true
        → t.ok ≡ false
        → t.failed_message ≡ some message
        → t.failed_step ≡ some qa_step
        → t.steps ≡ s.steps ++ (qa_step ∷ [])
        → Guarded s action t

  verdict-Guarded :
      (s : State Snapshot) (step : ExecutionStep) (action : QaAction) (v : Verdict)
      → Policy.validate action config s.attempts ≡ v
      → Ensures (Guarded s action) (guard_verdict ports config s step action v)
  unfolding guard_verdict denied_with
  verdict-Guarded s step action allowed e = Ensures-pure _ (Guarded.goes_on e refl)
  verdict-Guarded s step action (denied code message) e =
      Ensures-bind _ _
        λ before. Ensures-pure _ (Guarded.stopped code message _ e refl refl refl refl refl)

  -- With an action resolved, `policyGuard` lets it pass exactly if the policy allows it on the attempts
  -- recorded so far; if not, the run is over and has failed with the message of the policy.
  pub policy_guard_node-Guarded :
      (s : State Snapshot) (action : QaAction)
      → s.current_action ≡ some action
      → Ensures (Guarded s action) (policy_guard_node ports config s)
  unfolding policy_guard_node guard_action
  policy_guard_node-Guarded s action e = Ensures-bind _ _ λ step.
      subst (λ a. Ensures (Guarded s action) (guard_action ports config s step a)) (sym e)
        (verdict-Guarded s step action _ refl)

  -- What `destructiveGuard` has seen where it returns without a pause.
  abbrev pub Harmless : State Snapshot → State Snapshot → Type 0
  Harmless s t =
      (t ≡ s)
      × ((s.current_plan.runtime.destructive_action_policy ≡ DestructiveActionPolicy.allow)
          ⊎ (config.destructive_action_policy ≡ DestructiveActionPolicy.allow)
          ⊎ ((step : ExecutionStep) × (action : QaAction) × (get_elem? s.current_plan.steps
                  s.step_index
                ≡ some step)
              × (s.current_action ≡ some action)
              × (Destructive (step.description <> " " <> action.reason) → ⊥)))

  text-Harmless :
      (s : State Snapshot) (step : ExecutionStep) (action : QaAction) (v : Verdict)
      → get_elem? s.current_plan.steps s.step_index ≡ some step
      → s.current_action ≡ some action
      → Policy.validate_destructive_text (step.description <> " " <> action.reason) config ≡ v
      → Ensures (Harmless s) (guard_text ports config s v)
  unfolding guard_text
  text-Harmless s step action allowed at_step at_action e = Ensures-pure _ (
    refl,
    inr (elim ((validate_destructive_text_iff _ config).0 e) [
      | inl harmless ↦ inr (step, action, at_step, at_action, harmless)
      | inr allow ↦ inl allow
    ]),
  )
  text-Harmless s step action (denied _ _) at_step at_action e = Ensures-pause

  under-Harmless :
      (s : State Snapshot) (policy : DestructiveActionPolicy)
      → s.current_plan.runtime.destructive_action_policy ≡ policy
      → Ensures (Harmless s) (guard_under ports config policy s)
  unfolding guard_under step_at
  under-Harmless s DestructiveActionPolicy.allow e = Ensures-pure _ (refl, inl e)
  under-Harmless s policy e = Ensures-bind_with _ _ (Ensures-need _) λ step at_step.
      Ensures-bind_with _ _ (Ensures-need _)
        λ action at_action. text-Harmless s step action _ at_step at_action refl

  -- Where `destructiveGuard` returns without asking anyone, the state is as it was; and the plan has
  -- the policy ALLOW, or the run has it, or no destructive word stands in the text of the step and
  -- of its action.
  pub destructive_guard_node-Harmless :
      (s : State Snapshot) → Ensures (Harmless s) (destructive_guard_node ports config s)
  unfolding destructive_guard_node
  destructive_guard_node-Harmless s = under-Harmless s _ refl
