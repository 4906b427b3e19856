-- ===== src/Preflight.antt =====
-- src/application/services/pipeline-preflight.service.ts: what is checked before a pipeline runs.
pub mod Report
pub mod Variables
pub mod Sanitized
pub mod Consult
pub mod Laws
use qa_agent.Prelude.{String, Bool, true, false, not, Option, none, some, if◌then◌else◌}
use qa_agent.Plan.Schema.{non_empty}
use qa_agent.Effect.{Eff, ◌>>=◌, ◌>>◌, pure, raise}
use qa_agent.Preflight.Report.{
  Checks, ReportStatus, PreflightReport, is_blocking_checks_ok, build_preflight_report,
}
use qa_agent.Preflight.Variables.{
  trimmed, validate_github_token, validate_pr_context, read_branch_head,
}
use qa_agent.Preflight.Sanitized.{sanitized, words_kept}
use qa_agent.Preflight.Consult.{
  PreflightPorts, validate_click_up_read_access, validate_click_up_task_id,
  validate_pr_comment_permission, validate_checkout_history, validate_config,
  validate_preview_reachable,
}

pub record PreflightResult : Type 0 where
  pub report : PreflightReport
  pub report_path : String

module _ (ports : PreflightPorts) where
  open ports use {World, env, clean, leaks, write_report}

  unfoldable pub run_checks : Eff World Checks
  run_checks = do
    access ← validate_click_up_read_access ports
    task ← validate_click_up_task_id ports
    permission ← validate_pr_comment_permission ports
    history ← validate_checkout_history ports
    project ← validate_config ports
    preview ← validate_preview_reachable ports
    pure (record {
      token_check = non_empty (trimmed env "CLICKUP_TOKEN");
      read_access = access;
      task_id_check = task;
      github_check = validate_github_token env;
      permission = permission;
      context = validate_pr_context env;
      head = read_branch_head env;
      history = history;
      config_check = project;
      preview = preview;
    })

  -- `sanitizeReport`
  unfoldable pub sanitize_report : PreflightReport → PreflightReport
  sanitize_report report =
      let safe = sanitized clean report in record safe { tokens_masked = not (leaks safe) }

  unfoldable pub run : String → Eff World PreflightResult
  unfolding sanitize_report
  run output_dir = run_checks >>= λ checks.
      let report = build_preflight_report checks (is_blocking_checks_ok checks) in
      if words_kept clean report
      then (let safe = sanitize_report report in
          write_report output_dir safe >>= λ path.
          pure (record { report = safe; report_path = path }))
      else raise

  unfoldable pub run_or_throw : String → Eff World PreflightResult
  run_or_throw output_dir = run output_dir >>= λ result. elim (result.report.status) [
    | ReportStatus.blocked ↦ raise
    | ReportStatus.pass ↦ pure result
  ]
