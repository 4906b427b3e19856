-- ===== src/Graph/Result.antt =====
-- `stateToResult` of src/infra/graph/plan-execution.graph.ts: what an execution returns of its state.
use qa_agent.Executor.Result.{PlanExecutionResult}
use qa_agent.Graph.State.{State}

-- Every channel that it reads has a value, so no default is taken.
abbrev pub state_to_result : {S : Type 0} → State S → PlanExecutionResult
state_to_result s = record {
  ok = s.ok;
  steps = s.steps;
  attempts = s.attempts;
  warnings = s.warnings;
  final_plan = s.current_plan;
  patch_history = s.patch_history;
  evaluations = s.evaluations;
  locator_telemetry = s.locator_telemetry;
  failed_step = s.failed_step;
  failed_observation = s.failed_observation;
  failed_message = s.failed_message;
}
