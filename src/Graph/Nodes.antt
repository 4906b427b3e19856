-- ===== src/Graph/Nodes.antt =====
-- The nodes of the graph: each reads the state, acts on the world, and gives the state with its
-- updates merged.
pub mod Act
pub mod Check
pub mod Settle
use qa_agent.Prelude.{ℕ, suc, ◌+◌, String, Bool, true, false}
use qa_agent.Domain.Config.{RunConfig}
use qa_agent.Effect.{Eff}
use qa_agent.Plan.Schema.{Stringify}
use qa_agent.Ports.{Ports}
use qa_agent.Graph.State.{State}
use Act.{
  observe_node, precheck_node, resolve_action_node, policy_guard_node, destructive_guard_node,
  execute_node, observe_after_node,
}
use Check.{postcheck_node, assertions_node, repeat_until_node}
use Settle.{replan_node, advance_node, final_assertions_node}

pub data Node : Type 0 where
  observe precheck resolve_action policy_guard destructive_guard execute observe_after : Node
  postcheck assertions repeat_until replan advance final_assertions : Node

module _ (ports : Ports) (json : Stringify) (config : RunConfig) where
  open ports use {World, Snapshot}

  unfoldable pub node : Node → State Snapshot → Eff World (State Snapshot)
  node Node.observe = observe_node ports
  node Node.precheck = precheck_node ports
  node Node.resolve_action = resolve_action_node ports config
  node Node.policy_guard = policy_guard_node ports config
  node Node.destructive_guard = destructive_guard_node ports config
  node Node.execute = execute_node ports config
  node Node.observe_after = observe_after_node ports
  node Node.postcheck = postcheck_node ports config
  node Node.assertions = assertions_node ports
  node Node.repeat_until = repeat_until_node ports
  node Node.replan = replan_node ports json config
  node Node.advance = advance_node ports
  node Node.final_assertions = final_assertions_node ports
