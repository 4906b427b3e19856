-- ===== src/Graph/Nodes/Act/Frame.antt =====
-- What the nodes up to the execution leave alone.
use qa_agent.Prelude.{refl, Option, none, some}
use qa_agent.Domain.Action.{QaAction}
use qa_agent.Domain.Plan.{ExecutionStep, DestructiveActionPolicy}
use qa_agent.Domain.Config.{RunConfig}
use qa_agent.Effect.Ensures.{
  Ensures, Ensures-pure, Ensures-pause, Ensures-if, Ensures-bind, Ensures-try,
}
use qa_agent.Policy.{Verdict, allowed, denied}
use qa_agent.Ports.{Ports}
use qa_agent.Graph.Frame.{Frame, kept, stopped}
use qa_agent.Graph.State.{State}
use qa_agent.Graph.Nodes.Act.{
  Search, observe_node, precheck_node, resolved_with, ask_provider, resolve_again,
  resolve_otherwise, first_resolution, resolve_action_node, denied_with, guard_verdict,
  guard_action, policy_guard_node, guard_text, guard_under, destructive_guard_node, execute_node,
  observe_after_node,
}

module _ (ports : Ports) where
  open ports use {World, Snapshot}

  pub observe-Frame : (s : State Snapshot) → Ensures (Frame s) (observe_node ports s)
  unfolding observe_node
  observe-Frame s = Ensures-bind _ _ λ step.
      Ensures-bind _ _
        λ obs. Ensures-bind _ _ λ before_state. Ensures-pure _ (kept refl refl refl refl)

  pub precheck-Frame : (s : State Snapshot) → Ensures (Frame s) (precheck_node ports s)
  unfolding precheck_node
  precheck-Frame s = Ensures-bind _ _ λ step.
      Ensures-bind _ _ λ before. Ensures-bind _ _ λ pre. Ensures-pure _ (kept refl refl refl refl)

  resolved-Frame :
      (s : State Snapshot) (r : Search) (action : Option QaAction)
      → Frame s (resolved_with ports s r action)
  unfolding resolved_with
  resolved-Frame s r action = kept refl refl refl refl

  provider-Frame :
      (s : State Snapshot) (step : ExecutionStep) (r : Search)
      → Ensures (Frame s) (ask_provider ports s step r)
  unfolding ask_provider
  provider-Frame s step r =
      Ensures-try _ _ (Ensures-bind _ _ λ action. Ensures-pure _ (resolved-Frame s _ _))
        (Ensures-pure _ (resolved-Frame s _ _))

  again-Frame :
      (s : State Snapshot) (step : ExecutionStep) (r : Search)
      → Ensures (Frame s) (resolve_again ports s step r)
  unfolding resolve_again
  again-Frame s step r =
      Ensures-bind _ _ λ again. Ensures-bind _ _ λ action. Ensures-pure _ (resolved-Frame s _ _)

  otherwise-Frame :
      (s : State Snapshot) (step : ExecutionStep) (r : Search)
      → Ensures (Frame s) (resolve_otherwise ports s step r)
  unfolding resolve_otherwise
  otherwise-Frame s step r = Ensures-bind _ _ λ warnings. Ensures-bind _ _ λ available.
      Ensures-if available.available _ _ (λ _. again-Frame s step _) (λ _. provider-Frame s step _)

  first-Frame :
      (s : State Snapshot) (step : ExecutionStep) (r : Search) (action : Option QaAction)
      → Ensures (Frame s) (first_resolution ports s step r action)
  unfolding first_resolution
  first-Frame s step r (some action) = Ensures-pure _ (resolved-Frame s r (some action))
  first-Frame s step r none = otherwise-Frame s step r

  pub observe_after-Frame : (s : State Snapshot) → Ensures (Frame s) (observe_after_node ports s)
  unfolding observe_after_node
  observe_after-Frame s = Ensures-bind _ _ λ step. Ensures-bind _ _ λ action.
      Ensures-bind _ _ λ after.
        Ensures-bind _ _
          λ after_state. Ensures-bind _ _ λ warnings. Ensures-pure _ (kept refl refl refl refl)

  module _ (config : RunConfig) where
    pub resolve-Frame :
        (s : State Snapshot) → Ensures (Frame s) (resolve_action_node ports config s)
    unfolding resolve_action_node
    resolve-Frame s = Ensures-bind _ _ λ step. Ensures-bind _ _ λ before.
        Ensures-bind _ _ λ action.
          Ensures-bind _ _ λ r. Ensures-bind _ _ λ first. first-Frame s step _ first.action

    verdict-Frame :
        (s : State Snapshot) (step : ExecutionStep) (action : QaAction) (v : Verdict)
        → Ensures (Frame s) (guard_verdict ports config s step action v)
    unfolding guard_verdict denied_with
    verdict-Frame s step action allowed = Ensures-pure _ (kept refl refl refl refl)
    verdict-Frame s step action (denied code message) =
        Ensures-bind _ _ λ before. Ensures-pure _ (stopped refl refl refl refl)

    guard-Frame :
        (s : State Snapshot) (step : ExecutionStep) (action : Option QaAction)
        → Ensures (Frame s) (guard_action ports config s step action)
    unfolding guard_action
    guard-Frame s step none = Ensures-pure _ (kept refl refl refl refl)
    guard-Frame s step (some action) = verdict-Frame s step action _

    pub policy_guard-Frame :
        (s : State Snapshot) → Ensures (Frame s) (policy_guard_node ports config s)
    unfolding policy_guard_node
    policy_guard-Frame s = Ensures-bind _ _ λ step. guard-Frame s step s.current_action

    text-Frame :
        (s : State Snapshot) (v : Verdict) → Ensures (Frame s) (guard_text ports config s v)
    unfolding guard_text
    text-Frame s allowed = Ensures-pure _ (kept refl refl refl refl)
    text-Frame s (denied _ _) = Ensures-pause

    under-Frame :
        (policy : DestructiveActionPolicy) (s : State Snapshot)
        → Ensures (Frame s) (guard_under ports config policy s)
    unfolding guard_under
    under-Frame DestructiveActionPolicy.allow s = Ensures-pure _ (kept refl refl refl refl)
    under-Frame policy s = Ensures-bind _ _ λ step. Ensures-bind _ _ λ action. text-Frame s _

    pub destructive_guard-Frame :
        (s : State Snapshot) → Ensures (Frame s) (destructive_guard_node ports config s)
    unfolding destructive_guard_node
    destructive_guard-Frame s = under-Frame _ s

    pub execute-Frame : (s : State Snapshot) → Ensures (Frame s) (execute_node ports config s)
    unfolding execute_node
    execute-Frame s = Ensures-bind _ _ λ step. Ensures-bind _ _ λ action. Ensures-bind _ _ λ exec.
        Ensures-bind _ _ λ _.
          Ensures-bind _ _
            λ _. Ensures-bind _ _ λ quiescence. Ensures-pure _ (kept refl refl refl refl)
