-- ===== src/Scenario/Gate.antt =====
-- The preflight on a small environment.
use qa_agent.Prelude.{
  String, ◌<>◌, ◌≡◌, Bool, true, false, List, [], ◌∷◌, Option, none, some, str_eq, map, any, select,
  join, if◌then◌else◌,
}
use qa_agent.Effect.{done, fulfilled}
use qa_agent.Effect.Ensures.{Ensures}
use qa_agent.Preflight.Report.{
  Checks, ReportStatus, CheckItem, has_failed, describe_preflight_blocked_message,
}
use qa_agent.Preflight.Report.Laws.{report_of, is_blocked, report_blocked}
use qa_agent.Preflight.Variables.{
  Environment, Auth, validate_pr_context, validate_github_token, read_branch_head,
}
use qa_agent.Preflight.Consult.{PreflightPorts}
use qa_agent.Preflight.{run_or_throw}
use qa_agent.Preflight.Laws.{IsReady, run_or_throw-IsReady}

abbrev value_of : List (String × String) → String → Option String
value_of [] key = none
value_of ((k, v) ∷ more) key = if str_eq k key then some v else value_of more key

abbrev variables : Environment
variables = record {
  value = value_of (
      ("CLICKUP_TOKEN", "pk_1 ")
      ∷ ("GITHUB_EVENT_NAME", "pull_request")
      ∷ ("GITHUB_REF", "refs/pull/7/merge")
      ∷ ("GITHUB_HEAD_REF", "feature")
      ∷ ("GITHUB_BASE_REF", "main")
      ∷ []);
  cwd = "/repo";
  resolve = λ base path. base <> "/" <> path;
}

abbrev ports : PreflightPorts
ports = record {
  World = Bool;
  Raw = Bool;
  Pattern = Bool;
  env = variables;
  load_config = λ path w. done (fulfilled true) w;
  safe_parse = λ raw. fulfilled (record {
    task_id = some "T-1";
    custom_id_pattern = none;
    base_url = "https://app";
    provider = "fake";
    api_key_env = "KEY";
    fallback_provider = none;
    fallback_api_key_env = none;
    auth = Auth.other_auth;
  });
  issues = λ raw. [];
  custom_id_pattern = λ given. (true, none);
  extract_task_id = λ pattern w. done (fulfilled (some "PRJ-1")) w;
  sanitize_message = λ message. message;
  verify_read_access = λ token w. done (record { ok = true; status_code = none; error = none }) w;
  resolve_pull_number = λ w. done (some 7) w;
  verify_pr_comment_permission = λ token repository number w.
      done
        (record {
          ok = true;
          status_code = none;
          warning = none;
          repository = none;
          pull_number = none;
        })
        w;
  is_shallow_repository = λ cwd w. done (fulfilled false) w;
  has_remote_branch = λ branch cwd w. done (fulfilled true) w;
  fetch_head = λ url w. done (fulfilled (true, 200)) w;
  clean = λ text. text;
  leaks = λ report. false;
  write_report = λ dir report w. done (dir <> "/preflight.json") w;
}

-- The token is missing.
abbrev pub no_token : Checks
no_token = record {
  token_check = false;
  read_access = record { ok = false; status_code = none; error = none };
  task_id_check = record {
    ok = true;
    skipped = true;
    source = none;
    task_id = none;
    error = none;
    warning = none;
  };
  github_check = validate_github_token variables;
  permission = record {
    ok = false;
    status_code = none;
    warning = none;
    repository = none;
    pull_number = none;
  };
  context = validate_pr_context variables;
  head = read_branch_head variables;
  history = record { ok = true; errors = []; base_ref = some "main"; shallow = false };
  config_check = record { ok = true; errors = []; config_path = "/repo" };
  preview = record { ok = true; status_code = none; error = none; url = none };
}

run_or_throw-IsReady_example :
    Ensures
      (λ result.
        (result.report.status ≡ ReportStatus.pass)
        × (any has_failed result.report.check_items ≡ false)
        × IsReady variables)
      (run_or_throw ports "out")
run_or_throw-IsReady_example = run_or_throw-IsReady ports "out"

report_blocked_example :
    (is_blocked (report_of no_token) ≡ any has_failed (report_of no_token).check_items)
    × ((report_of no_token).status ≡ ReportStatus.blocked
        → describe_preflight_blocked_message (report_of no_token)
          ≡ "QA bloqueado: "
            <> join "; " (
                map {A = CheckItem}
                  (λ i. i.message)
                  (select has_failed (report_of no_token).check_items)))
report_blocked_example = report_blocked no_token
