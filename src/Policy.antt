-- ===== src/Policy.antt =====
-- src/application/services/action-policy.service.ts: which actions a run may take.
pub mod Laws
pub mod Words
pub mod Limits
use qa_agent.Prelude.{
  ℕ, String, ◌<>◌, Bool, true, false, ◌||◌, List, [], ◌∷◌, map, Option, none, some, Text, codes,
  fold_case, has_word, has_prefix, str_eq, ◌==◌, ltb, length, any, select, if◌then◌else◌,
}
use qa_agent.Domain.Action.{QaAction, ActionBody}
use qa_agent.Domain.Plan.{DestructiveActionPolicy}
use qa_agent.Domain.Run.{AttemptRecord, AttemptStatus}
use qa_agent.Domain.Config.{RunConfig}

-- `{ ok: true } | { ok: false; code; message }`
pub data Verdict : Type 0 where
  allowed : Verdict
  denied : String → String → Verdict

abbrev pub is_allowed : Verdict → Bool
is_allowed allowed = true
is_allowed (denied _ _) = false

-- `route.replace('*', '')`: the first star goes.
pub drop_star : Text → Text
drop_star [] = []
drop_star (c ∷ s) = if c == b'*' then s else c ∷ drop_star s

pub route_allows : String → String → Bool
unfolding drop_star
route_allows to route = has_prefix (drop_star (codes route)) (codes to)

-- `config.allowedRoutes?.length` and the test of the routes.
pub navigation_allowed : Option (List String) → String → Bool
unfolding route_allows
navigation_allowed none to = true
navigation_allowed (some []) to = true
navigation_allowed (some (r ∷ rs)) to = any (route_allows to) (r ∷ rs)

pub is_failed : AttemptStatus → Bool
is_failed AttemptStatus.failed = true
is_failed _ = false

-- The attempts that count as a failed semantic action.
pub semantic_failure : AttemptRecord → Bool
unfolding is_failed
semantic_failure a =
    if any (str_eq a.action_type) ("click" ∷ "fill" ∷ "select" ∷ "press" ∷ "clickOutside" ∷ [])
    then is_failed a.result
    else false

pub semantic_failures : List AttemptRecord → ℕ
unfolding semantic_failure
semantic_failures attempts = length (select semantic_failure attempts)

pub check_coordinates : ActionBody → List AttemptRecord → Verdict
unfolding semantic_failures
check_coordinates (ActionBody.click_at_coordinates x y) attempts =
    if ltb (semantic_failures attempts) 3
    then denied "RECOVERY_EXHAUSTED" "clickAtCoordinates requires 3 previous semantic failures"
    else allowed
check_coordinates _ attempts = allowed

pub check_body : ActionBody → RunConfig → List AttemptRecord → Verdict
unfolding navigation_allowed check_coordinates
check_body (ActionBody.navigate to) config attempts =
    if navigation_allowed config.allowed_routes to
    then allowed
    else denied "NAVIGATION_BLOCKED" ("Route not allowed: " <> to)
check_body body config attempts = check_coordinates body attempts

unfoldable pub validate : QaAction → RunConfig → List AttemptRecord → Verdict
unfolding check_body
validate action config attempts = check_body action.body config attempts

-- The words of the pattern in `looksDestructive`.
abbrev destructive_words : List Text
destructive_words = map codes (
    "excluir" ∷ "deletar" ∷ "delete" ∷ "remover" ∷ "cancelar pedido" ∷ "confirmar pagamento"
    ∷ "pagamento" ∷ "publicar" ∷ "publish" ∷ "alterar senha" ∷ "enviar email" ∷ "enviar e-mail"
    ∷ "send email" ∷ "send e-mail" ∷ [])

unfoldable pub looks_destructive : String → Bool
unfolding has_word
looks_destructive text = has_word destructive_words (map fold_case (codes text))

policy_name : DestructiveActionPolicy → String
policy_name DestructiveActionPolicy.allow = "ALLOW"
policy_name DestructiveActionPolicy.block = "BLOCK"
policy_name DestructiveActionPolicy.ask_approval = "ASK_APPROVAL"
policy_name DestructiveActionPolicy.allow_only_in_test_env = "ALLOW_ONLY_IN_TEST_ENV"

under_policy : DestructiveActionPolicy → String → Verdict
unfolding policy_name
under_policy DestructiveActionPolicy.allow text = allowed
under_policy policy text =
    denied "NAVIGATION_BLOCKED"
      ("Destructive action blocked by policy " <> policy_name policy <> ": " <> text)

unfoldable pub validate_destructive_text : String → RunConfig → Verdict
unfolding under_policy
validate_destructive_text text config =
    if looks_destructive text then under_policy config.destructive_action_policy text else allowed
