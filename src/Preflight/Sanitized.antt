-- ===== src/Preflight/Sanitized.antt =====
-- `sanitizeReport` of src/application/services/pipeline-preflight.service.ts and the parse after it.
use qa_agent.Prelude.{String, Bool, List, [], ◌∷◌, ◌++◌, Option, none, some, map, all, str_eq}
use qa_agent.Preflight.Report.{
  CheckName, CheckStatus, CheckItem, TaskIdSource, Checks, ReportStatus, PreflightReport,
}

name_word : CheckName → String
name_word CheckName.clickup_token = "clickupToken"
name_word CheckName.clickup_read_access = "clickupReadAccess"
name_word CheckName.clickup_task_id = "clickupTaskId"
name_word CheckName.github_token = "githubToken"
name_word CheckName.pr_comment_permission = "prCommentPermission"
name_word CheckName.pr_context = "prContext"
name_word CheckName.branch_head = "branchHead"
name_word CheckName.checkout_history = "checkoutHistory"
name_word CheckName.config = "config"
name_word CheckName.preview_reachable = "previewReachable"

status_word : CheckStatus → String
status_word CheckStatus.passed = "PASS"
status_word CheckStatus.failed = "FAIL"
status_word CheckStatus.warned = "WARN"

report_word : ReportStatus → String
report_word ReportStatus.pass = "PASS"
report_word ReportStatus.blocked = "BLOCKED"

source_words : Option TaskIdSource → List String
source_words none = []
source_words (some TaskIdSource.from_pr) = "pr" ∷ []
source_words (some TaskIdSource.from_config) = "config" ∷ []
source_words (some TaskIdSource.from_env) = "env" ∷ []

item_words : List CheckItem → List String
unfolding name_word status_word
item_words [] = []
item_words (i ∷ items) = name_word i.name ∷ status_word i.status ∷ item_words items

-- The words of the report that its schema fixes: masked, they are no words of the schema.
report_words : PreflightReport → List String
unfolding item_words source_words report_word
report_words r =
    "preflight-report.v1"
    ∷ report_word r.status
    ∷ (source_words r.checks.task_id_check.source ++ item_words r.check_items)

-- The schema accepts the sanitized report.
pub words_kept : (String → String) → PreflightReport → Bool
unfolding report_words
words_kept clean r = all (λ w. str_eq (clean w) w) (report_words r)

abbrev clean_option : (String → String) → Option String → Option String
clean_option f none = none
clean_option f (some s) = some (f s)

-- The texts of the checks.
sanitized_checks : (String → String) → Checks → Checks
sanitized_checks f c = record c {
  read_access = record c.read_access { error = clean_option f c.read_access.error };
  task_id_check = record c.task_id_check {
    task_id = clean_option f c.task_id_check.task_id;
    error = clean_option f c.task_id_check.error;
    warning = clean_option f c.task_id_check.warning;
  };
  github_check = record c.github_check { warning = clean_option f c.github_check.warning };
  permission = record c.permission {
    warning = clean_option f c.permission.warning;
    repository = clean_option f c.permission.repository;
  };
  context = record c.context {
    missing = map f c.context.missing;
    event_name = clean_option f c.context.event_name;
  };
  head = record c.head {
    branch_head = clean_option f c.head.branch_head;
    missing = map f c.head.missing;
  };
  history = record c.history {
    errors = map f c.history.errors;
    base_ref = clean_option f c.history.base_ref;
  };
  config_check = record c.config_check {
    errors = map f c.config_check.errors;
    config_path = f c.config_check.config_path;
  };
  preview = record c.preview {
    error = clean_option f c.preview.error;
    url = clean_option f c.preview.url;
  };
}

-- Every text of the report is cleaned, down to the details.
unfoldable pub sanitized : (String → String) → PreflightReport → PreflightReport
unfolding sanitized_checks
sanitized f r = record r {
  check_items =
      map {A = CheckItem} {B = CheckItem} (λ i. record i { message = f i.message }) r.check_items;
  checks = sanitized_checks f r.checks;
}
