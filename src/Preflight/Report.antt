-- ===== src/Preflight/Report.antt =====
-- src/domain/schemas/preflight-report.schema.ts, the report that
-- src/application/services/pipeline-preflight.service.ts builds of its checks, and
-- src/application/helpers/describe-preflight-blocked-message.ts.
pub mod Laws
use qa_agent.Prelude.{
  ℕ, String, ◌<>◌, Bool, true, false, not, ◌&&◌, List, [], ◌∷◌, Option, none, some, map, all,
  select, join, or_else, if◌then◌else◌,
}
use qa_agent.Plan.Schema.{has_text}

pub data CheckName : Type 0 where
  clickup_token clickup_read_access clickup_task_id github_token pr_comment_permission pr_context
        branch_head checkout_history config preview_reachable :
      CheckName

-- `PREFLIGHT_CHECK_NAMES`
abbrev pub check_names : List CheckName
check_names =
    CheckName.clickup_token ∷ CheckName.clickup_read_access ∷ CheckName.clickup_task_id
    ∷ CheckName.github_token ∷ CheckName.pr_comment_permission ∷ CheckName.pr_context
    ∷ CheckName.branch_head ∷ CheckName.checkout_history ∷ CheckName.config
    ∷ CheckName.preview_reachable ∷ []

-- Membership in `BLOCKING_PREFLIGHT_CHECKS`.
abbrev pub is_blocking : CheckName → Bool
is_blocking CheckName.github_token = false
is_blocking CheckName.pr_comment_permission = false
is_blocking _ = true

pub data CheckStatus : Type 0 where
  passed failed warned : CheckStatus

pub record CheckItem : Type 0 where
  pub name : CheckName
  pub status : CheckStatus
  pub message : String

pub data TaskIdSource : Type 0 where
  from_pr from_config from_env : TaskIdSource

pub record ReadAccess : Type 0 where
  pub ok : Bool
  pub status_code : Option ℕ
  pub error : Option String

-- An absent `skipped` is false.
pub record TaskIdCheck : Type 0 where
  pub ok : Bool
  pub skipped : Bool
  pub source : Option TaskIdSource
  pub task_id : Option String
  pub error : Option String
  pub warning : Option String

pub record TokenCheck : Type 0 where
  pub ok : Bool
  pub warning : Option String

pub record CommentPermission : Type 0 where
  pub ok : Bool
  pub status_code : Option ℕ
  pub warning : Option String
  pub repository : Option String
  pub pull_number : Option ℕ

pub record PrContext : Type 0 where
  pub ok : Bool
  pub missing : List String
  pub event_name : Option String

pub record BranchHead : Type 0 where
  pub ok : Bool
  pub branch_head : Option String
  pub missing : List String

pub record CheckoutHistory : Type 0 where
  pub ok : Bool
  pub errors : List String
  pub base_ref : Option String
  pub shallow : Bool

pub record ConfigCheck : Type 0 where
  pub ok : Bool
  pub errors : List String
  pub config_path : String

pub record PreviewCheck : Type 0 where
  pub ok : Bool
  pub status_code : Option ℕ
  pub error : Option String
  pub url : Option String

-- `PreflightChecksDetail`
pub record Checks : Type 0 where
  pub token_check : Bool
  pub read_access : ReadAccess
  pub task_id_check : TaskIdCheck
  pub github_check : TokenCheck
  pub permission : CommentPermission
  pub context : PrContext
  pub head : BranchHead
  pub history : CheckoutHistory
  pub config_check : ConfigCheck
  pub preview : PreviewCheck

pub data ReportStatus : Type 0 where
  pass blocked : ReportStatus

pub record PreflightReport : Type 0 where
  pub status : ReportStatus
  pub tokens_masked : Bool
  pub check_items : List CheckItem
  pub checks : Checks

-- `checks[name].ok`
unfoldable pub is_ok : Checks → CheckName → Bool
is_ok checks CheckName.clickup_token = checks.token_check
is_ok checks CheckName.clickup_read_access = checks.read_access.ok
is_ok checks CheckName.clickup_task_id = checks.task_id_check.ok
is_ok checks CheckName.github_token = checks.github_check.ok
is_ok checks CheckName.pr_comment_permission = checks.permission.ok
is_ok checks CheckName.pr_context = checks.context.ok
is_ok checks CheckName.branch_head = checks.head.ok
is_ok checks CheckName.checkout_history = checks.history.ok
is_ok checks CheckName.config = checks.config_check.ok
is_ok checks CheckName.preview_reachable = checks.preview.ok

abbrev pub is_task_id : CheckName → Bool
is_task_id CheckName.clickup_task_id = true
is_task_id _ = false

-- `BLOCKING_PREFLIGHT_CHECKS.every(…)`
unfoldable pub is_blocking_checks_ok : Checks → Bool
unfolding is_ok
is_blocking_checks_ok checks =
    all
      (λ name. if is_task_id name && checks.task_id_check.skipped then true else is_ok checks name)
      (select is_blocking check_names)

-- What was found of the task ID, after its warning if there is one.
pub task_id_message : TaskIdCheck → Bool → String
task_id_message t context_ok =
    if t.skipped
    then if not context_ok
      then "ClickUp task ID check skipped — PR context incomplete"
      else "ClickUp task ID check skipped — not running in GitHub Actions"
    else if has_text t.error
    then or_else t.error ""
    else if t.ok && has_text t.task_id
    then (let id = or_else t.task_id "" in
        let extracted : String = elim (t.source) [
          | some TaskIdSource.from_config ↦ "ClickUp task ID resolved from config: " <> id
          | some TaskIdSource.from_env ↦
              "ClickUp task ID resolved from deprecated CLICKUP_TASK_ID env: " <> id
          | _ ↦ "ClickUp task ID extracted from PR: " <> id
        ] in
        if has_text t.warning then or_else t.warning "" <> ". " <> extracted else extracted)
    else if has_text t.warning
    then or_else t.warning "" <> ". ClickUp task ID not found in PR title/body or config"
    else "ClickUp task ID not found in PR title/body or config"

abbrev pub github_token_missing : String
github_token_missing =
    "GitHub token is missing (GITHUB_TOKEN, GH_TOKEN, or INPUT_GITHUB_TOKEN); PR read/publish may be unavailable."

pub message_for_check : Checks → CheckName → String
unfolding task_id_message
message_for_check c CheckName.clickup_token =
    if c.token_check then "CLICKUP_TOKEN is configured" else "CLICKUP_TOKEN is missing"
message_for_check c CheckName.clickup_read_access =
    if c.read_access.ok
    then "ClickUp read access verified"
    else or_else c.read_access.error "ClickUp read access check failed"
message_for_check c CheckName.clickup_task_id = task_id_message c.task_id_check c.context.ok
message_for_check c CheckName.github_token =
    if c.github_check.ok
    then "GitHub token is configured"
    else or_else c.github_check.warning github_token_missing
message_for_check c CheckName.pr_comment_permission =
    if c.permission.ok
    then "GitHub PR comment permission verified"
    else or_else c.permission.warning "GitHub PR comment permission check failed"
message_for_check c CheckName.pr_context =
    if c.context.ok
    then "GitHub Actions pull_request context is complete"
    else "Missing PR context: " <> join ", " c.context.missing
message_for_check c CheckName.branch_head =
    if c.head.ok
    then "Branch head resolved: " <> or_else c.head.branch_head "undefined"
    else "Missing branch head: " <> join ", " c.head.missing
message_for_check c CheckName.checkout_history =
    if c.history.ok
    then "Checkout history is sufficient for git diff"
    else join "; " c.history.errors
message_for_check c CheckName.config =
    if c.config_check.ok then "Project config is valid" else join "; " c.config_check.errors
message_for_check c CheckName.preview_reachable =
    if c.preview.ok
    then "Preview reachable: " <> or_else c.preview.url "undefined"
    else or_else c.preview.error "Preview health check failed"

-- `warningChecks.includes(name)`
abbrev pub is_warning : CheckName → Bool
is_warning CheckName.github_token = true
is_warning CheckName.pr_comment_permission = true
is_warning _ = false

pub status_for_check : Checks → CheckName → CheckStatus
unfolding is_ok
status_for_check c name =
    let t = c.task_id_check in
    if is_task_id name && t.skipped
    then CheckStatus.warned
    else if is_task_id name && has_text t.warning && t.ok
    then CheckStatus.warned
    else if is_ok c name
    then CheckStatus.passed
    else if is_warning name
    then CheckStatus.warned
    else CheckStatus.failed

pub build_check_item : Checks → CheckName → CheckItem
unfolding status_for_check message_for_check
build_check_item c name = record {
  name = name;
  status = status_for_check c name;
  message = message_for_check c name;
}

unfoldable pub build_preflight_report : Checks → Bool → PreflightReport
unfolding build_check_item
build_preflight_report checks all_ok = record {
  status = if all_ok then ReportStatus.pass else ReportStatus.blocked;
  tokens_masked = false;
  check_items = map (build_check_item checks) check_names;
  checks = checks;
}

abbrev pub has_failed : CheckItem → Bool
has_failed item = elim (item.status) [ CheckStatus.failed ↦ true | _ ↦ false ]

-- `describePreflightBlockedMessage`
unfoldable pub describe_preflight_blocked_message : PreflightReport → String
describe_preflight_blocked_message report =
    elim (select (λ item. has_failed item && is_blocking item.name) report.check_items) [
      | [] ↦ "QA bloqueado: vincule a task do ClickUp ao PR."
      | item ∷ items ↦ "QA bloqueado: " <> join "; " (map (λ i. i.message) (item ∷ items))
    ]
