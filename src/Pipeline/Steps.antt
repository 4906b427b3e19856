-- ===== src/Pipeline/Steps.antt =====
-- `runStep` and `runGateStep` of src/application/use-cases/run-pipeline-all.usecase.ts, with the errors
-- of src/domain/errors.ts that they tell apart.
use qa_agent.Prelude.{
  String, Bool, true, false, List, [], ◌∷◌, ◌++◌, Option, none, some, or_else, if◌then◌else◌,
}
use qa_agent.Plan.Schema.{non_empty}
use qa_agent.ExitCodes.{ExitCode, ErrorClass, classify_error}
use qa_agent.Preflight.Report.{PreflightReport, ReportStatus}

pub data PipelineError : Type 0 where
  preflight_blocked : PreflightReport → PipelineError
  correlation_blocked : Option String → PipelineError
  config_error run_timeout harness_fatal other_error : String → PipelineError

abbrev pub error_class : PipelineError → ErrorClass
error_class (PipelineError.preflight_blocked _) = ErrorClass.preflight_blocked_error
error_class (PipelineError.correlation_blocked _) = ErrorClass.correlation_blocked_error
error_class (PipelineError.config_error _) = ErrorClass.config_error
error_class (PipelineError.run_timeout _) = ErrorClass.run_timeout_error
error_class (PipelineError.harness_fatal _) = ErrorClass.harness_fatal_error
error_class (PipelineError.other_error _) = ErrorClass.other

abbrev pub error_message : PipelineError → String
error_message (PipelineError.preflight_blocked _) = "Pipeline preflight blocked"
error_message (PipelineError.correlation_blocked reason) =
    or_else reason "Pipeline correlation blocked"
error_message (PipelineError.config_error message) = message
error_message (PipelineError.run_timeout message) = message
error_message (PipelineError.harness_fatal message) = message
error_message (PipelineError.other_error message) = message

-- A call that gives a value or an error.
pub data Promise (W A : Type 0) : Type 0 where
  resolved : A → W → Promise W A
  failed : PipelineError → W → Promise W A

abbrev pub Stage : Type 0 → Type 0 → Type 0
Stage W A = W → Promise W A

pub data StepStatus : Type 0 where
  ok blocked bugs_found config_error error : StepStatus

pub record StepRecord : Type 0 where
  pub name : String
  pub status : StepStatus
  pub exit_code : ExitCode
  pub message : Option String

pub to_step_status : ExitCode → StepStatus
to_step_status ExitCode.success = StepStatus.ok
to_step_status ExitCode.preflight_blocked = StepStatus.blocked
to_step_status ExitCode.bugs_found = StepStatus.bugs_found
to_step_status ExitCode.config_error = StepStatus.config_error
to_step_status _ = StepStatus.error

-- `recordStep`: an empty message is left out.
unfoldable pub record_step : String → StepStatus → ExitCode → Option String → StepRecord
record_step name status code message = record {
  name = name;
  status = status;
  exit_code = code;
  message = elim message [ none ↦ none | some m ↦ if non_empty m then some m else none ];
}

-- The record of a step that gives an exit code, and of one that throws.
unfoldable pub record_code : String → ExitCode → StepRecord
unfolding record_step to_step_status
record_code name code = record_step name (to_step_status code) code none

unfoldable pub record_error : String → PipelineError → StepRecord
unfolding record_step to_step_status
record_error name e =
    let code = classify_error (error_class e) in
    record_step name (to_step_status code) code (some (error_message e))

-- `runStep`, on the call and the exit code of its value.
unfoldable pub run_step :
    {W A : Type 0} → List StepRecord → String → Stage W A → (A → ExitCode) → W → List StepRecord × W
unfolding record_code record_error
run_step steps name call code w = elim (call w) [
  | resolved a w' ↦ (steps ++ (record_code name (code a) ∷ []), w')
  | failed e w' ↦ (steps ++ (record_error name e ∷ []), w')
]

-- What a gate gives: the records, whether the run goes on, and whether a comment was posted.
pub record Gate : Type 0 where
  pub steps : List StepRecord
  pub should_continue : Bool
  pub comment_posted : Option Bool

pub record Correlation : Type 0 where
  pub is_blocked : Bool
  pub block_reason : Option String

unfoldable pub classify_preflight_report : PreflightReport → ExitCode
classify_preflight_report report = elim (report.status) [
  | ReportStatus.blocked ↦ ExitCode.preflight_blocked
  | ReportStatus.pass ↦ ExitCode.success
]

unfoldable pub classify_correlation_result : Correlation → ExitCode
classify_correlation_result c =
    if c.is_blocked then ExitCode.preflight_blocked else ExitCode.success

abbrev pub is_preflight_blocked : ExitCode → Bool
is_preflight_blocked ExitCode.preflight_blocked = true
is_preflight_blocked _ = false

module _ {W : Type 0} (notify : String → Stage W Bool) (steps : List StepRecord)
    (name : String) where
  unfoldable pub stop : String → Bool → Gate
  unfolding record_step
  stop message posted = record {
    steps =
        steps
        ++ (record_step name StepStatus.blocked ExitCode.preflight_blocked (some message) ∷ []);
    should_continue = false;
    comment_posted = some posted;
  }

  -- The `catch` of a gate.
  unfoldable pub caught : Option String → PipelineError → W → Promise W Gate
  unfolding stop record_error
  caught message e w =
      let text = or_else message "" in
      if non_empty text
      then elim (notify text w) [
        | resolved posted w' ↦ resolved (stop text posted) w'
        | failed e' w' ↦ failed e' w'
      ]
      else resolved
          (record {
            steps = steps ++ (record_error name e ∷ []);
            should_continue = false;
            comment_posted = none;
          })
          w

  -- `runGateStep`
  unfoldable pub run_gate_step :
      {A : Type 0}
      → Stage W A
      → (A → ExitCode)
      → (A → String)
      → (PipelineError → Option String)
      → W
      → Promise W Gate
  unfolding caught stop record_step
  run_gate_step call classify message error_text w = elim (call w) [
    | failed e w' ↦ caught (error_text e) e w'
    | resolved a w' ↦
        if is_preflight_blocked (classify a)
        then elim (notify (message a) w') [
          | failed e w2 ↦ caught (error_text e) e w2
          | resolved posted w2 ↦ resolved (stop (message a) posted) w2
        ]
        else resolved
            (record {
              steps = steps ++ (record_step name StepStatus.ok (classify a) none ∷ []);
              should_continue = true;
              comment_posted = none;
            })
            w'
  ]
