-- ===== src/Preflight/Variables.antt =====
-- The environment variables that src/application/services/pipeline-preflight.service.ts reads, with
-- the helpers in src/application/helpers/load-clickup-config-settings.ts,
-- src/infra/github/github-actions-pr-refs.resolver.ts,
-- src/infra/clickup/clickup-task-id.resolver.ts and src/application/use-cases/validate-config.usecase.ts.
use qa_agent.Prelude.{
  String, ◌<>◌, true, false, not, ◌&&◌, ◌||◌, List, [], ◌∷◌, ◌++◌, Option, none, some, trim,
  or_else, str_eq, if◌then◌else◌,
}
use qa_agent.Plan.Schema.{has_text, non_empty, is_empty}
use qa_agent.Preflight.Report.{
  TaskIdSource, TokenCheck, PrContext, BranchHead, github_token_missing,
}

-- `process.env`, `process.cwd()` and `resolve` of `node:path`.
pub record Environment : Type 0 where
  pub value : String → Option String
  pub cwd : String
  pub resolve : String → String → String

pub data Auth : Type 0 where
  form_login : (username_env password_env : String) → Auth
  other_auth : Auth

-- The fields of the configuration that the checks read.
pub record ProjectConfig : Type 0 where
  pub task_id : Option String
  pub custom_id_pattern : Option String
  pub base_url : String
  pub provider : String
  pub api_key_env : String
  pub fallback_provider : Option String
  pub fallback_api_key_env : Option String
  pub auth : Auth

-- `process.env[key]?.trim() ?? ''`
unfoldable pub trimmed : Environment → String → String
trimmed env key = elim (env.value key) [ none ↦ "" | some s ↦ trim s ]

-- `process.env[key]?.trim() || fallback`
trimmed_or : Environment → String → String → String
trimmed_or env key fallback = let s = trimmed env key in if non_empty s then s else fallback

first_token : Environment → List String → String
first_token env [] = ""
first_token env (key ∷ keys) =
    let rest = first_token env keys in let s = trimmed env key in if non_empty s then s else rest

pub resolve_github_token : Environment → String
unfolding first_token
resolve_github_token env = first_token env ("GITHUB_TOKEN" ∷ "GH_TOKEN" ∷ "INPUT_GITHUB_TOKEN" ∷ [])

pub validate_github_token : Environment → TokenCheck
validate_github_token env =
    if non_empty (resolve_github_token env)
    then record { ok = true; warning = none }
    else record { ok = false; warning = some github_token_missing }

-- The names of the variables that have no text.
unfoldable pub missing_of : Environment → List String → List String
missing_of env [] = []
missing_of env (key ∷ keys) =
    let rest = missing_of env keys in if non_empty (trimmed env key) then rest else key ∷ rest

unfoldable pub validate_pr_context : Environment → PrContext
unfolding missing_of
validate_pr_context env =
    let name = trimmed env "GITHUB_EVENT_NAME" in
    let missing =
      (if str_eq name "pull_request" || str_eq name "pull_request_target"
        then []
        else "GITHUB_EVENT_NAME" ∷ [])
      ++ missing_of env ("GITHUB_REF" ∷ "GITHUB_HEAD_REF" ∷ "GITHUB_BASE_REF" ∷ []) in
    record {
      ok = is_empty missing;
      missing = missing;
      event_name = if non_empty name then some name else none;
    }

-- `resolveHeadBranchFromEnv`
resolve_head_branch_from_env : Environment → Option String
resolve_head_branch_from_env env =
    let head = trimmed env "GITHUB_HEAD_REF" in if non_empty head then some head else none

pub read_branch_head : Environment → BranchHead
unfolding resolve_head_branch_from_env
read_branch_head env = elim (resolve_head_branch_from_env env) [
  | none ↦ record { ok = false; branch_head = none; missing = "GITHUB_HEAD_REF" ∷ [] }
  | some head ↦ record { ok = true; branch_head = some head; missing = [] }
]

-- `resolveAgentQaConfigPath`
pub resolve_config_path : Environment → String
unfolding trimmed_or
resolve_config_path env =
    env.resolve (trimmed_or env "GITHUB_WORKSPACE" env.cwd)
      (trimmed_or env "AGENT_QA_CONFIG" "./agent-qa.config.json")

-- The message of the first variable that is not set.
first_unset : Environment → String → List String → Option String
first_unset env suffix [] = none
first_unset env suffix (key ∷ keys) =
    let rest = first_unset env suffix keys in
    if has_text (env.value key) then rest else some ("Missing env " <> key <> suffix)

check_auth : Environment → Auth → Option String
unfolding first_unset
check_auth env Auth.other_auth = none
check_auth env (Auth.form_login username password) =
    first_unset env " for formLogin auth" (username ∷ password ∷ [])

-- `validateLoaded` with the health check skipped: the message of the error that it throws.
pub validate_loaded : Environment → ProjectConfig → Option String
unfolding check_auth
validate_loaded env c =
    if not (str_eq c.provider "fake") && not (has_text (env.value c.api_key_env))
    then some ("Missing env " <> c.api_key_env <> " for llm.provider=" <> c.provider)
    else if has_text c.fallback_provider
        && has_text c.fallback_api_key_env
        && not (has_text (env.value (or_else c.fallback_api_key_env "")))
    then some (
        "Missing env "
        <> or_else c.fallback_api_key_env ""
        <> " for llm.fallbackProvider="
        <> or_else c.fallback_provider "")
    else check_auth env c.auth

-- `ResolvedClickUpTaskId`
pub record Reference : Type 0 where
  pub task_id : String
  pub source : TaskIdSource
  pub warning : Option String

-- `resolveClickUpTaskIdReference`, with `none` where it throws.
pub resolve_click_up_task_id_reference : Environment → Option String → Option Reference
resolve_click_up_task_id_reference env config_task_id =
    let config : String = elim config_task_id [ none ↦ "" | some s ↦ trim s ] in
    let given = trimmed env "CLICKUP_TASK_ID" in
    if non_empty config
    then some (record { task_id = config; source = TaskIdSource.from_config; warning = none })
    else if non_empty given
    then some (record {
      task_id = given;
      source = TaskIdSource.from_env;
      warning = some "CLICKUP_TASK_ID env is deprecated; use config.clickup.taskId instead.";
    })
    else none

-- `joinWarnings` of two.
pub join_warnings : Option String → Option String → Option String
join_warnings a b =
    if not (has_text a)
    then (if has_text b then b else none)
    else if not (has_text b) || str_eq (or_else a "") (or_else b "")
    then a
    else some (or_else a "" <> ". " <> or_else b "")
