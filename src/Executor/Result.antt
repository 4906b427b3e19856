-- ===== src/Executor/Result.antt =====
-- `PlanExecutionResult` of src/application/services/plan-executor.service.ts.
use qa_agent.Prelude.{String, Bool, List, Option}
use qa_agent.Domain.Plan.{ExecutionPlan}
use qa_agent.Domain.Observation.{ScreenObservation}
use qa_agent.Domain.Run.{AttemptRecord, QaStep, Warning, ConditionEvaluation, LocatorTelemetryEvent}
use qa_agent.Runner.{HistoryItem}

pub record PlanExecutionResult : Type 0 where
  pub ok : Bool
  pub steps : List QaStep
  pub attempts : List AttemptRecord
  pub warnings : List Warning
  pub final_plan : ExecutionPlan
  pub patch_history : List HistoryItem
  pub evaluations : List ConditionEvaluation
  pub locator_telemetry : List LocatorTelemetryEvent
  pub failed_step : Option QaStep
  pub failed_observation : Option ScreenObservation
  pub failed_message : Option String
