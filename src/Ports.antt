-- ===== src/Ports.antt =====
-- What the executor calls and does not implement: src/application/ports/browser-harness.port.ts, the
-- decision provider, and the services of plan-step-runner.service.ts that only consult these or
-- read texts (locators, run data, task memory, element availability, runtime states).
use qa_agent.Prelude.{ℕ, String, Bool, List, Option}
use qa_agent.Domain.Action.{QaAction}
use qa_agent.Domain.Plan.{
  PlanCondition, PlanAction, ExecutionStep, ExecutionPlan, PlanPatch, ReplanReason,
}
use qa_agent.Domain.Observation.{ScreenObservation, BoundExpected}
use qa_agent.Domain.Run.{
  AssertionResult, AttemptRecord, ExecResult, QuiescenceResult, LocatorTelemetryEvent, Warning,
}
use qa_agent.Effect.{Eff}

pub record Availability : Type 0 where
  pub available : Bool
  pub observation : ScreenObservation
  pub reobserved : Bool
  pub attempts : List AttemptRecord

-- `resolveAction` pushes its telemetry also when it throws, which is `none`, with a message.
pub record Resolution : Type 0 where
  pub message : String
  pub action : Option QaAction
  pub telemetry : List LocatorTelemetryEvent

pub record Ports : Type 1 where
  -- The state of everything outside: the page, the run data, the working memory.
  pub World : Type 0
  -- A `RuntimeStateSnapshot`.
  pub Snapshot : Type 0
  -- The browser.
  pub execute : QaAction → Eff World ExecResult
  pub wait_for_quiescence : ℕ → Eff World QuiescenceResult
  pub browser_observe : Eff World ScreenObservation
  pub validate : BoundExpected → Eff World AssertionResult
  pub runtime_state : ScreenObservation → List PlanCondition → Eff World Snapshot
  pub accessibility_warnings : String → Eff World (List Warning)
  -- Locators, run data and working memory.
  pub rebuild_locators : ScreenObservation → Eff World (Unit {0})
  pub resolve_condition : PlanCondition → Eff World PlanCondition
  pub resolve_plan_action : PlanAction → Eff World PlanAction
  pub store_value : String → String → Eff World (Unit {0})
  pub memory_observe : String → String → ScreenObservation → Eff World (Unit {0})
  pub memory_action : String → String → QaAction → Bool → Eff World (Unit {0})
  pub resolve_action : ExecutionStep → ScreenObservation → Eff World Resolution
  pub ensure_available : ExecutionStep → ScreenObservation → Eff World Availability
  pub bound_condition : PlanCondition → ScreenObservation → Eff World BoundExpected
  -- `checkRuntimeCondition` and `hasText`.
  pub runtime_check :
      PlanCondition → ScreenObservation → Option Snapshot → Option Snapshot → Option AssertionResult
  pub any_visible : ScreenObservation → List String → Bool
  -- The decision provider.
  pub decide_action : ExecutionStep → ScreenObservation → Eff World QaAction
  pub decide_patch :
      ExecutionPlan
      → ExecutionStep
      → ScreenObservation
      → ReplanReason
      → String
      → Eff World PlanPatch
