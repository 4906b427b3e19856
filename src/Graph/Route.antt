-- ===== src/Graph/Route.antt =====
-- The edges of the graph.
use qa_agent.Prelude.{Bool, get_elem?, is_some, leb, length, if◌then◌else◌}
use qa_agent.Domain.Plan.{StepFailurePolicy}
use qa_agent.Domain.Run.{AssertionResult}
use qa_agent.Effect.{Eff, ◌>>=◌, pure, need}
use qa_agent.Graph.State.{State}
use qa_agent.Graph.Nodes.{Node}

pub data Next : Type 0 where
  goto : Node → Next
  end : Next

-- Where a step whose preconditions fail goes on.
unfoldable pub policy_next : StepFailurePolicy → Next
policy_next StepFailurePolicy.continue_with_warning = goto Node.advance
policy_next _ = goto Node.replan

unfoldable pub after_precheck : AssertionResult → StepFailurePolicy → Next
after_precheck pre policy = if pre.ok then goto Node.resolve_action else policy_next policy

-- END for a run that is done.
unfoldable pub unless_done : Bool → Next → Next
unless_done stopped next = if stopped then end else next

module _ {S : Type 0} where
  unfoldable pub after_resolve : State S → Next
  unfolding unless_done
  after_resolve s =
      unless_done s.done
        (if is_some s.current_action then goto Node.policy_guard else goto Node.replan)

  unfoldable pub after_postcheck : State S → AssertionResult → Next
  after_postcheck s validation =
      if s.passed
      then goto Node.advance
      else if validation.ok
      then goto Node.assertions
      else goto Node.replan

  unfoldable pub after_repeat : State S → Next
  unfolding unless_done
  after_repeat s =
      unless_done s.done (if s.repeat_step then goto Node.observe else goto Node.advance)

  unfoldable pub after_replan : State S → Next
  unfolding unless_done
  after_replan s = unless_done s.done (if s.patched_step then goto Node.observe else end)

  unfoldable pub after_advance : State S → Next
  after_advance s =
      if leb (length s.current_plan.steps) s.step_index
      then goto Node.final_assertions
      else goto Node.observe

  -- The edge taken after a node; an edge that reads a value that is not there throws.
  unfoldable pub route : {W : Type 0} → Node → State S → Eff W Next
  unfolding after_precheck after_resolve after_postcheck after_repeat after_replan after_advance
      unless_done
  route Node.observe s = pure (goto Node.precheck)
  route Node.precheck s = do
    step ← need (get_elem? s.current_plan.steps s.step_index)
    pre ← need s.last_validation
    pure (after_precheck pre step.on_failure)
  route Node.resolve_action s = pure (after_resolve s)
  route Node.policy_guard s = pure (unless_done s.done (goto Node.destructive_guard))
  route Node.destructive_guard s = pure (unless_done s.done (goto Node.execute))
  route Node.execute s = pure (goto Node.observe_after)
  route Node.observe_after s = pure (goto Node.postcheck)
  route Node.postcheck s = do
    validation ← need s.last_validation
    pure (after_postcheck s validation)
  route Node.assertions s = do
    validation ← need s.last_validation
    pure (if validation.ok then goto Node.repeat_until else goto Node.replan)
  route Node.repeat_until s = pure (after_repeat s)
  route Node.replan s = pure (after_replan s)
  route Node.advance s = pure (after_advance s)
  route Node.final_assertions s = pure end
