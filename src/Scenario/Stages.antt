-- ===== src/Scenario/Stages.antt =====
-- The pipeline on stages that succeed, with the correlation blocked or not.
use qa_agent.Prelude.{ℕ, suc, ◌≡◌, refl, Bool, true, false, [], none, some, map, All}
use qa_agent.ExitCodes.{ExitCode, classify_error, most_severe_exit_code}
use qa_agent.Preflight.Report.{PreflightReport, ReportStatus}
use qa_agent.Pipeline.Steps.{
  Promise, resolved, failed, run_step, record_code, record_error, record_step, stop, caught,
  run_gate_step, classify_preflight_report, classify_correlation_result,
}
use qa_agent.Pipeline.{
  Stages, PipelineOptions, PipelineAllRunResult, finish, run_later, configure, execute,
}
use qa_agent.Pipeline.Order.{IsRun, stage_names, execute-IsRun}
use qa_agent.Pipeline.Success.{execute-success}
use qa_agent.Scenario.Gate.{no_token}

abbrev passing : PreflightReport
passing = record {
  status = ReportStatus.pass;
  tokens_masked = true;
  check_items = [];
  checks = no_token;
}

-- The world counts the calls.
abbrev stages : Bool → Stages
stages blocked = record {
  World = ℕ;
  prepare = λ out w. resolved passing (suc w);
  correlate =
      λ out project w. resolved (record { is_blocked = blocked; block_reason = none }) (suc w);
  auto_config = λ out preview project w. resolved "qa.json" (suc w);
  risk = λ out project w. resolved tt (suc w);
  generate_plan = λ out config project w. resolved (some "plan.json") (suc w);
  execute_plan = λ out config project w. resolved true (suc w);
  report = λ out config project w. resolved false (suc w);
  learning = λ out config project w. resolved tt (suc w);
  promote_learning = λ out config project w. resolved tt (suc w);
  notify = λ message w. resolved true (suc w);
}

abbrev options : PipelineOptions
options = record { config_path = none; project_path = none; auto_config = true; preview_url = none }

abbrev run : Bool → Promise ℕ PipelineAllRunResult
run blocked = execute (stages blocked) "/repo" "out" options 0

abbrev result : Promise ℕ PipelineAllRunResult → PipelineAllRunResult
result (resolved r w) = r
result (failed e w) = finish [] none none

blocked_returns : run true ≡ resolved (result (run true)) 3
unfolding execute configure run_later finish run_step run_gate_step stop caught record_code
    record_error record_step classify_preflight_report classify_correlation_result classify_error
blocked_returns = refl

free_returns : run false ≡ resolved (result (run false)) 9
unfolding execute configure run_later finish run_step run_gate_step stop caught record_code
    record_error record_step classify_preflight_report classify_correlation_result classify_error
free_returns = refl

free_success : (result (run false)).exit_code ≡ ExitCode.success
unfolding execute configure run_later finish run_step run_gate_step stop caught record_code
    record_error record_step classify_preflight_report classify_correlation_result classify_error
    most_severe_exit_code
free_success = refl

execute-IsRun_example : IsRun true (result (run true))
execute-IsRun_example =
    execute-IsRun (stages true) "/repo" "out" options 0 (result (run true)) 3 blocked_returns

execute-success_example :
    ((result (run false)).blocked_at ≡ none)
    × (map (λ s. s.name) (result (run false)).steps ≡ stage_names true)
    × All (λ s. s.exit_code ≡ ExitCode.success) (result (run false)).steps
execute-success_example =
    execute-success (stages false) "/repo" "out" options 0 (result (run false)) 9 free_returns
      free_success
