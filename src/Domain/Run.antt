-- ===== src/Domain/Run.antt =====
-- src/domain/models/run.model.ts and src/domain/shared/result.ts: records of a run.
use qa_agent.Prelude.{ℕ, String, Bool, Option, ◌≡◌}
use qa_agent.Domain.Action.{QaAction}
use qa_agent.Domain.Observation.{BoundExpected}

pub data AttemptStatus : Type 0 where
  passed failed recovered blocked : AttemptStatus

-- Time stamps are left out: nothing reads them back.
pub record AttemptRecord : Type 0 where
  pub action_type : String
  pub result : AttemptStatus
  pub reason : Option String

-- `durationMs` is left out.
pub record AssertionResult : Type 0 where
  pub ok : Bool
  pub type : String
  pub expected : Option String
  pub actual : Option String

pub record DomainError : Type 0 where
  pub code : String
  pub message : String

-- What a call throws: an error of the domain, or that of a failed schema.
pub data Thrown : Type 0 where
  domain : DomainError → Thrown
  schema : Thrown

-- A call that returns a value or throws.
pub data Result {ℓ} (A : Type ℓ) : Type ℓ where
  ok : A → Result A
  fail : Thrown → Result A

pub ok-injective {ℓ} : {A : Type ℓ} {a b : A} → ok a ≡ ok b → a ≡ b
ok-injective h = cc

infixl 5 ◌>>=◌ ◌>>◌
abbrev pub ◌>>=◌ {ℓ κ} : {A : Type ℓ} {B : Type κ} → Result A → (A → Result B) → Result B
ok a >>= f = f a
fail e >>= f = fail e

abbrev pub ◌>>◌ {ℓ} : {B : Type ℓ} → Result (Unit {0}) → Result B → Result B
m >> k = m >>= λ _. k

-- `throw new DomainError(code, message)`
abbrev pub throw {ℓ} : {A : Type ℓ} → String → String → Result A
throw code message = fail (domain (record { code = code; message = message }))

pub record QuiescenceResult : Type 0 where
  pub stable : Bool

pub record ActionError : Type 0 where
  pub message : String

-- `ActionExecutionResult`, with the duration that the executor reads.
pub record ExecResult : Type 0 where
  pub ok : Bool
  pub duration_ms : ℕ
  pub error : Option ActionError
  pub extracted : Option String

pub record QaStep : Type 0 where
  pub step_id : String
  pub scenario_id : Option String
  pub task_id : Option String
  pub observation_id : String
  pub thought_summary : String
  pub action : QaAction
  pub resolved_action : QaAction
  pub bound_expected : BoundExpected
  pub validation : AssertionResult
  pub quiescence : Option QuiescenceResult
  pub error : Option String

pub record Warning : Type 0 where
  pub step_id : String
  pub message : String

pub data TelemetryType : Type 0 where
  deterministic_resolution semantic_fallback llm_decide replan target_not_found : TelemetryType

pub record LocatorTelemetryEvent : Type 0 where
  pub step_id : String
  pub type : TelemetryType
  pub locator_strategy : Option String
  pub element_id : Option String

pub data Phase : Type 0 where
  precondition postcondition business_assertion : Phase

pub data Severity : Type 0 where
  info warning error : Severity

-- `ConditionEvaluationResult`, without the values and snapshots that it carries for the report.
pub record ConditionEvaluation : Type 0 where
  pub condition_id : String
  pub step_id : String
  pub phase : Phase
  pub type : String
  pub passed : Bool
  pub severity : Severity
  pub reason : String
