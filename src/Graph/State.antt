-- ===== src/Graph/State.antt =====
-- The channels of `PlanExecutionState`. Those with a concatenating reducer are lists that only grow;
-- the others are overwritten. The configuration is a parameter of the nodes.
use qa_agent.Prelude.{
  ℕ, String, Bool, true, false, List, [], ◌∷◌, Option, none, some, str_eq, if◌then◌else◌,
}
use qa_agent.Domain.Action.{QaAction}
use qa_agent.Domain.Plan.{ExecutionPlan}
use qa_agent.Domain.Observation.{ScreenObservation}
use qa_agent.Domain.Run.{
  AssertionResult, AttemptRecord, ExecResult, QuiescenceResult, QaStep, Warning,
  ConditionEvaluation, LocatorTelemetryEvent,
}
use qa_agent.Runner.{HistoryItem}

pub record State (Snapshot : Type 0) : Type 0 where
  pub current_plan : ExecutionPlan
  pub step_index : ℕ
  pub attempt : ℕ
  pub replans : ℕ
  pub iterations : List (String × ℕ)
  pub before : Option ScreenObservation
  pub after : Option ScreenObservation
  pub before_state : Option Snapshot
  pub after_state : Option Snapshot
  pub current_action : Option QaAction
  pub last_exec_result : Option ExecResult
  pub last_validation : Option AssertionResult
  pub last_quiescence : Option QuiescenceResult
  pub passed : Bool
  pub patched_step : Bool
  pub repeat_step : Bool
  pub done : Bool
  pub steps : List QaStep
  pub attempts : List AttemptRecord
  pub warnings : List Warning
  pub patch_history : List HistoryItem
  pub evaluations : List ConditionEvaluation
  pub locator_telemetry : List LocatorTelemetryEvent
  pub failed_step : Option QaStep
  pub failed_observation : Option ScreenObservation
  pub failed_message : Option String
  pub ok : Bool

-- The input of `graph.invoke` in plan-graph-executor.service.ts.
unfoldable pub initial : {Snapshot : Type 0} → ExecutionPlan → State Snapshot
initial plan = record {
  current_plan = plan;
  step_index = 0;
  attempt = 0;
  replans = 0;
  iterations = [];
  before = none;
  after = none;
  before_state = none;
  after_state = none;
  current_action = none;
  last_exec_result = none;
  last_validation = none;
  last_quiescence = none;
  passed = false;
  patched_step = false;
  repeat_step = false;
  done = false;
  steps = [];
  attempts = [];
  warnings = [];
  patch_history = [];
  evaluations = [];
  locator_telemetry = [];
  failed_step = none;
  failed_observation = none;
  failed_message = none;
  ok = true;
}

-- `state.iterations[id]`
unfoldable pub iteration_of : String → List (String × ℕ) → Option ℕ
iteration_of id [] = none
iteration_of id ((k, n) ∷ more) = if str_eq k id then some n else iteration_of id more
