-- ===== src/Pipeline.antt =====
-- src/application/use-cases/run-pipeline-all.usecase.ts: the stages of the pipeline in their order.
pub mod Steps
pub mod Gates
pub mod Order
pub mod Success
use qa_agent.Prelude.{
  String, Bool, true, false, not, List, [], ◌∷◌, ◌++◌, Option, none, some, map, or_else,
  if◌then◌else◌,
}
use qa_agent.Plan.Schema.{has_text}
use qa_agent.ExitCodes.{ExitCode, most_severe_exit_code}
use qa_agent.Preflight.Report.{PreflightReport, describe_preflight_blocked_message}
use qa_agent.Pipeline.Steps.{
  PipelineError, Promise, resolved, failed, Stage, Correlation, StepRecord, Gate,
  classify_preflight_report, classify_correlation_result, run_step, run_gate_step, record_error,
  record_step, record_code,
}

-- The use cases of the stages, and the notifier.
pub record Stages : Type 1 where
  pub World : Type 0
  pub prepare : String → Stage World PreflightReport
  pub correlate : String → String → Stage World Correlation
  pub auto_config : String → Option String → String → Stage World String
  pub risk : String → String → Stage World (Unit {0})
  pub generate_plan : String → String → String → Stage World (Option String)
  pub execute_plan : String → String → String → Stage World Bool
  pub report : String → String → String → Stage World Bool
  pub learning : String → String → String → Stage World (Unit {0})
  pub promote_learning : String → String → String → Stage World (Unit {0})
  pub notify : String → Stage World Bool

pub record PipelineOptions : Type 0 where
  pub config_path : Option String
  pub project_path : Option String
  pub auto_config : Bool
  pub preview_url : Option String

pub record PipelineAllRunResult : Type 0 where
  pub steps : List StepRecord
  pub blocked_at : Option String
  pub exit_code : ExitCode
  pub comment_posted : Option Bool

unfoldable pub finish : List StepRecord → Option String → Option Bool → PipelineAllRunResult
finish steps blocked_at comment_posted = record {
  steps = steps;
  blocked_at = blocked_at;
  exit_code = most_severe_exit_code (map (λ s. s.exit_code) steps);
  comment_posted = comment_posted;
}

-- The text with which a gate blocks on an error.
abbrev preflight_error : PipelineError → Option String
preflight_error (PipelineError.preflight_blocked report) =
    some (describe_preflight_blocked_message report)
preflight_error _ = none

abbrev correlation_error : PipelineError → Option String
correlation_error (PipelineError.correlation_blocked reason) =
    some (or_else reason "Pipeline correlation blocked")
correlation_error _ = none

module _ (stages : Stages) (cwd : String) where
  open stages use {
    World, prepare, correlate, auto_config, risk, generate_plan, execute_plan, report, learning,
    promote_learning, notify,
  }

  -- The stages behind the gates.
  unfoldable pub run_later :
      String → String → String → List StepRecord → World → Promise World PipelineAllRunResult
  run_later out config project steps w =
      let (s1, w1) = run_step steps "risk" (risk out project) (λ _. ExitCode.success) w in
      let (s2, w2) =
        run_step s1 "generate-plan" (generate_plan out config project)
          (λ path. if has_text path then ExitCode.success else ExitCode.config_error) w1 in
      let (s3, w3) =
        run_step s2 "execute" (execute_plan out config project)
          (λ good. if good then ExitCode.success else ExitCode.bugs_found) w2 in
      let (s4, w4) =
        run_step s3 "report" (report out config project)
          (λ bad. if bad then ExitCode.bugs_found else ExitCode.success) w3 in
      let (s5, w5) =
        run_step s4 "learning" (learning out config project) (λ _. ExitCode.success) w4 in
      let (s6, w6) =
        run_step s5 "promote-learning" (promote_learning out config project) (λ _. ExitCode.success)
          w5 in
      resolved (finish s6 none none) w6

  -- The configuration that the run goes on with, if one is to be made.
  unfoldable pub configure :
      String
      → PipelineOptions
      → String
      → String
      → List StepRecord
      → World
      → Promise World PipelineAllRunResult
  configure out options config project steps w =
      if options.auto_config
      then elim (auto_config out options.preview_url project w) [
        | resolved path w' ↦
            run_later out path project (steps ++ (record_code "auto-config" ExitCode.success ∷ []))
              w'
        | failed e w' ↦
            resolved
              (finish (steps ++ (record_error "auto-config" e ∷ [])) (some "auto-config") none) w'
      ]
      else run_later out config project steps w

  unfoldable pub execute : String → PipelineOptions → Stage World PipelineAllRunResult
  execute out options w =
      let project = or_else options.project_path cwd in
      elim (run_gate_step notify [] "prepare" (prepare out) classify_preflight_report
        describe_preflight_blocked_message preflight_error w) [
          | failed e w' ↦ failed e w'
          | resolved first w' ↦
              if not first.should_continue
              then resolved (finish first.steps (some "prepare") first.comment_posted) w'
              else elim (run_gate_step notify first.steps "correlate" (correlate out project)
                  classify_correlation_result
                  (λ c. or_else c.block_reason "Pipeline correlation blocked") correlation_error
                  w') [
                    | failed e w2 ↦ failed e w2
                    | resolved second w2 ↦
                        if not second.should_continue
                        then resolved (finish second.steps (some "correlate") second.comment_posted)
                            w2
                        else configure out options
                            (or_else options.config_path "./agent-qa.config.json") project
                            second.steps w2
                  ]
        ]
