-- ===== src/Preflight/Consult.antt =====
-- The checks of src/application/services/pipeline-preflight.service.ts that consult other systems.
use qa_agent.Prelude.{
  ℕ, String, ◌<>◌, Bool, true, false, not, ◌&&◌, ◌||◌, List, [], ◌∷◌, ◌++◌, Option, none, some,
  codes, has_part, show, join, trim, leb, map, if◌then◌else◌,
}
use qa_agent.Plan.Schema.{has_text, non_empty, is_empty}
use qa_agent.Effect.{Eff, Settled, fulfilled, rejected, Call, ◌>>=◌, pure}
use qa_agent.Preflight.Report.{
  ReadAccess, TaskIdCheck, TaskIdSource, CommentPermission, CheckoutHistory, ConfigCheck,
  PreviewCheck, PreflightReport,
}
use qa_agent.Preflight.Variables.{
  Environment, ProjectConfig, trimmed, resolve_github_token, validate_pr_context,
  resolve_config_path, validate_loaded, resolve_click_up_task_id_reference, join_warnings,
}

-- What the checks consult, and the schema of the configuration with the issues that it finds.
pub record PreflightPorts : Type 1 where
  pub World : Type 0
  pub Raw : Type 0
  pub Pattern : Type 0
  pub env : Environment
  pub load_config : String → Call World Raw
  pub safe_parse : Raw → Settled ProjectConfig
  pub issues : Raw → List (List String × String)
  pub custom_id_pattern : Option String → Pattern × Option String
  pub extract_task_id : Pattern → Call World (Option String)
  pub sanitize_message : String → String
  pub verify_read_access : String → Eff World ReadAccess
  pub resolve_pull_number : Eff World (Option ℕ)
  pub verify_pr_comment_permission : String → String → ℕ → Eff World CommentPermission
  pub is_shallow_repository : String → Call World Bool
  pub has_remote_branch : String → String → Call World Bool
  pub fetch_head : String → Call World (Bool × ℕ)
  pub clean : String → String
  pub leaks : PreflightReport → Bool
  pub write_report : String → PreflightReport → Eff World String

-- `${issue.path.join('.') || 'root'}: ${issue.message}`
issue_text : List String × String → String
issue_text (path, message) =
    let at = join "." path in (if non_empty at then at else "root") <> ": " <> message

-- `value?.trim() || undefined`
abbrev non_blank : Option String → Option String
non_blank none = none
non_blank (some s) = let t = trim s in if non_empty t then some t else none

-- A field of `loadClickUpConfigSettings`.
abbrev setting : (ProjectConfig → Option String) → Option ProjectConfig → Option String
setting f none = none
setting f (some config) = non_blank (f config)

abbrev non_empty_url : Option String → Option String
non_empty_url none = none
non_empty_url (some s) = if non_empty s then some s else none

module _ (ports : PreflightPorts) where
  open ports use {
    World, Raw, Pattern, env, load_config, safe_parse, issues, custom_id_pattern, extract_task_id,
    sanitize_message, verify_read_access, resolve_pull_number, verify_pr_comment_permission,
    is_shallow_repository, has_remote_branch, fetch_head, clean, leaks, write_report,
  }

  pub validate_click_up_read_access : Eff World ReadAccess
  validate_click_up_read_access =
      let token = trimmed env "CLICKUP_TOKEN" in
      if non_empty token
      then verify_read_access token
      else pure (record {
        ok = false;
        status_code = none;
        error = some "CLICKUP_TOKEN is missing; cannot verify read access";
      })

  -- The configuration, where it can be loaded and is valid.
  load_project_config : Eff World (Option ProjectConfig)
  load_project_config = load_config (resolve_config_path env) >>= λ r. elim r [
    | rejected _ ↦ pure none
    | fulfilled raw ↦ elim (safe_parse raw) [
      | rejected _ ↦ pure none
      | fulfilled config ↦ pure (some config)
    ]
  ]

  -- The task ID of the configuration or of the environment, where the PR names none.
  configured_task_id : Option String → Option String → TaskIdCheck
  configured_task_id warning config_task_id =
      elim (resolve_click_up_task_id_reference env config_task_id) [
        | some found ↦ record {
          ok = true;
          skipped = false;
          source = some found.source;
          task_id = some found.task_id;
          error = none;
          warning = join_warnings warning found.warning;
        }
        | none ↦ record {
          ok = false;
          skipped = false;
          source = none;
          task_id = none;
          error = none;
          warning = warning;
        }
      ]

  task_id_of : Option String → Option String → Settled (Option String) → TaskIdCheck
  unfolding configured_task_id
  task_id_of warning config_task_id (rejected message) = record {
    ok = false;
    skipped = false;
    source = none;
    task_id = none;
    error = some (sanitize_message message);
    warning = warning;
  }
  task_id_of warning config_task_id (fulfilled found) =
      if has_text found
      then record {
        ok = true;
        skipped = false;
        source = some TaskIdSource.from_pr;
        task_id = found;
        error = none;
        warning = warning;
      }
      else configured_task_id warning config_task_id

  abbrev skipped_task_id : TaskIdCheck
  skipped_task_id = record {
    ok = true;
    skipped = true;
    source = none;
    task_id = none;
    error = none;
    warning = none;
  }

  pub validate_click_up_task_id : Eff World TaskIdCheck
  unfolding task_id_of load_project_config
  validate_click_up_task_id =
      if not (validate_pr_context env).ok || not (non_empty (trimmed env "GITHUB_EVENT_PATH"))
      then pure skipped_task_id
      else load_project_config >>= λ settings.
          let (pattern, warning) =
            custom_id_pattern (setting (λ c. c.custom_id_pattern) settings) in
          extract_task_id pattern >>= λ found.
          pure (task_id_of warning (setting (λ c. c.task_id) settings) found)

  -- The answer of the API with the pull request that it is about.
  permission_of : String → ℕ → CommentPermission → CommentPermission
  permission_of repository number p = record p {
    warning =
        if not p.ok && not (has_text p.warning)
        then some "GitHub PR comment permission check failed; local fallback available"
        else p.warning;
    repository = some repository;
    pull_number = some number;
  }

  no_permission : String → CommentPermission
  no_permission warning = record {
    ok = false;
    status_code = none;
    warning = some warning;
    repository = none;
    pull_number = none;
  }

  pub validate_pr_comment_permission : Eff World CommentPermission
  unfolding permission_of no_permission
  validate_pr_comment_permission =
      let token = resolve_github_token env in
      let repository = trimmed env "GITHUB_REPOSITORY" in
      resolve_pull_number >>= λ number.
      if not (non_empty token)
      then pure (
          no_permission
            "GitHub token is missing (GITHUB_TOKEN, GH_TOKEN, or INPUT_GITHUB_TOKEN); cannot verify PR comment permission")
      else if not (non_empty repository)
      then pure (no_permission "PR metadata missing; cannot verify comment permission")
      else elim number [
        | none ↦ pure (no_permission "PR metadata missing; cannot verify comment permission")
        | some n ↦ verify_pr_comment_permission token repository n >>= λ p.
            pure (permission_of repository n p)
      ]

  -- The repository as the two calls describe it.
  history_of : String → Bool → Bool → CheckoutHistory
  history_of base_ref shallow accessible =
      let errors =
        (if shallow then "Checkout is shallow; fetch-depth: 0 required for git diff" ∷ [] else [])
        ++ (if accessible
            then []
            else ("Base branch not accessible locally: origin/" <> base_ref) ∷ []) in
      record { ok = is_empty errors; errors = errors; base_ref = some base_ref; shallow = shallow }

  failed_history : String → String → CheckoutHistory
  failed_history base_ref message = record {
    ok = false;
    errors = ("Git repository check failed: " <> message) ∷ [];
    base_ref = some base_ref;
    shallow = false;
  }

  pub validate_checkout_history : Eff World CheckoutHistory
  unfolding history_of failed_history
  validate_checkout_history =
      let base_ref = trimmed env "GITHUB_BASE_REF" in
      let workspace = trimmed env "GITHUB_WORKSPACE" in
      let cwd = if non_empty workspace then workspace else env.cwd in
      if not (non_empty base_ref)
      then pure (record {
        ok = false;
        errors = "GITHUB_BASE_REF is missing" ∷ [];
        base_ref = none;
        shallow = false;
      })
      else is_shallow_repository cwd >>= λ r. elim r [
        | rejected message ↦ pure (failed_history base_ref message)
        | fulfilled shallow ↦ has_remote_branch base_ref cwd >>= λ q. elim q [
          | rejected message ↦ pure (failed_history base_ref message)
          | fulfilled accessible ↦ pure (history_of base_ref shallow accessible)
        ]
      ]

  config_errors : String → Settled Raw → List String
  unfolding issue_text
  config_errors path (rejected message) =
      (if has_part (codes "ENOENT") (codes message)
        then "Config file not found: " <> path
        else "Failed to load config from " <> path <> ": " <> message)
      ∷ []
  config_errors path (fulfilled raw) = elim (safe_parse raw) [
    | rejected _ ↦ map issue_text (issues raw)
    | fulfilled config ↦ elim (validate_loaded env config) [
      | none ↦ []
      | some message ↦ message ∷ []
    ]
  ]

  -- An invalid configuration is not ok, whatever its issues are.
  config_ok : Settled Raw → List String → Bool
  config_ok (rejected _) errors = false
  config_ok (fulfilled raw) errors = elim (safe_parse raw) [
    | rejected _ ↦ false
    | fulfilled _ ↦ is_empty errors
  ]

  pub validate_config : Eff World ConfigCheck
  unfolding config_errors config_ok
  validate_config =
      let path = resolve_config_path env in
      load_config path >>= λ r.
      let errors = config_errors path r in
      pure (record { ok = config_ok r errors; errors = errors; config_path = path })

  -- The base URL of the configuration, where it can be loaded and is valid.
  try_resolve_base_url : Eff World (Option String)
  unfolding load_project_config
  try_resolve_base_url = load_project_config >>= λ settings. elim settings [
    | none ↦ pure none
    | some config ↦ pure (some config.base_url)
  ]

  -- The answer of the preview: only an error of the server counts against it.
  preview_of : String → Settled (Bool × ℕ) → PreviewCheck
  preview_of url (rejected message) = record {
    ok = false;
    status_code = none;
    error = some ("Preview não responde — " <> message);
    url = some url;
  }
  preview_of url (fulfilled (good, status)) =
      if not good && leb 500 status
      then record {
        ok = false;
        status_code = some status;
        error = some ("Preview não responde — HTTP " <> show status);
        url = none;
      }
      else record { ok = true; status_code = some status; error = none; url = some url }

  pub validate_preview_reachable : Eff World PreviewCheck
  unfolding try_resolve_base_url preview_of
  validate_preview_reachable =
      (elim (env.value "QA_AGENT_BASE_URL") [
        | some url ↦ pure (some url)
        | none ↦ try_resolve_base_url
      ])
      >>= λ base. elim (non_empty_url base) [
        | none ↦ pure (record {
          ok = false;
          status_code = none;
          error = some "QA_AGENT_BASE_URL or config.baseUrl not set";
          url = none;
        })
        | some url ↦ fetch_head url >>= λ r. pure (preview_of url r)
      ]
