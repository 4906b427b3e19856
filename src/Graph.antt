-- ===== src/Graph.antt =====
-- src/infra/graph/plan-execution.graph.ts: the state graph that executes a plan.
pub mod Nodes
pub mod Route
pub mod Run
pub mod Result
pub mod State
mod Frame
pub mod Verdict
pub mod Ends
