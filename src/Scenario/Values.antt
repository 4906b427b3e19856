-- ===== src/Scenario/Values.antt =====
-- The theorems on plain values at concrete ones.
use qa_agent.Prelude.{
  List, arith, ◌≡◌, refl, ◌⊎◌, ◌↔◌, true, false, [], ◌∷◌, none, some, All, codes, has_word,
}
use qa_agent.Domain.Action.{QaAction, ActionBody}
use qa_agent.Domain.Plan.{
  ReplanReason, PlanCondition, NetworkState, NetworkExpected, DestructiveActionPolicy,
}
use qa_agent.Domain.Observation.{ScreenObservation}
use qa_agent.Domain.Run.{AssertionResult, ok, throw}
use qa_agent.Plan.Patch.{
  apply, assert_patch_safety, check_steps, check_step, check_originals, check_original,
  affected_steps, step_index, splice, change, locate, finish, applied_to, history_of,
  AppliedPlanPatch, PatchStatus,
}
use qa_agent.Plan.Schema.{
  valid_patch, valid_plan, valid_step, valid_locator, valid_condition, valid_body, valid_action,
  has_ephemeral_id,
}
use qa_agent.Plan.Patch.Applied.{
  apply_result, apply_twice, apply-IsAcceptable, IsApplied, IsBlocked,
}
use qa_agent.Plan.Patch.Safety.{IsAcceptable}
use qa_agent.Policy
use qa_agent.Policy.Words.{Destructive}
use qa_agent.Policy.{allowed, validate_destructive_text, looks_destructive}
use qa_agent.Policy.Laws.{validate_destructive_text_iff}
use qa_agent.Network
use qa_agent.Network.Laws.{validate-Holds, HoldsOn}
use qa_agent.GitDiff.{DiffLineType, is_file_metadata_line, parse_lines}
use qa_agent.GitDiff.Rendered.{Hunk, IsHunk, IsLine, hunk_texts, join_lines, parse_lines-rendered}
use qa_agent.ExitCodes.{ExitCode, most_severe_exit_code}
use qa_agent.ExitCodes.Laws.{IsFirstWorst, most_severe_exit_code-IsFirstWorst}
use qa_agent.TaskMemory.Bounds.{Op, run_ops, AreBounded, run_ops-AreBounded}
use qa_agent.BugClassifier.{Matchers, Signal, BugSignalType}
use qa_agent.Scenario.{json, config, plan, patch, page, wait}

abbrev pub patched : AppliedPlanPatch
patched = record {
  plan = record plan { version = 2; steps = patch.steps };
  history = history_of patch PatchStatus.applied (some 2);
}

pub patch-applies : apply json plan patch config ≡ ok patched
unfolding apply assert_patch_safety check_steps check_step check_originals check_original
    affected_steps step_index splice change locate finish applied_to valid_patch valid_plan
    valid_step valid_locator valid_condition valid_body valid_action has_ephemeral_id
    validate_destructive_text looks_destructive has_word
patch-applies = refl

apply_result_example :
    ("p1" ≡ plan.plan_id)
    × (1 ≡ plan.version)
    × (IsApplied json plan patch patched ⊎ IsBlocked plan patch patched)
apply_result_example = apply_result json plan patch config patched patch-applies

applied-status : patched.history.status ≡ PatchStatus.applied
unfolding history_of
applied-status = refl

apply_twice_example :
    apply json patched.plan patch config
    ≡ throw "STALE_PLAN_PATCH" "Patch basePlanVersion does not match current plan version"
apply_twice_example = apply_twice json plan patch config config patched patch-applies applied-status

apply-IsAcceptable_example : All (IsAcceptable config ReplanReason.assertion_failed) patch.steps
apply-IsAcceptable_example = apply-IsAcceptable json plan patch config patched patch-applies

abbrev navigation : QaAction
navigation = record { body = ActionBody.navigate "/home/news"; reason = "read the news" }

validate_destructive_text_iff_example :
    (validate_destructive_text "Delete the account" config ≡ allowed) ↔ (
      (Destructive "Delete the account" → ⊥)
      ⊎ (config.destructive_action_policy ≡ DestructiveActionPolicy.allow))
validate_destructive_text_iff_example = validate_destructive_text_iff "Delete the account" config

abbrev no_server_errors : NetworkState
no_server_errors = record {
  expected = NetworkExpected.no_5xx;
  url_pattern = none;
  min_status = none;
  max_status = none;
}

abbrev failing_page : ScreenObservation
failing_page = record page {
  network_signals =
      record {
        method = "GET";
        url = "https://app/api";
        status = 503;
        failure = none;
        is_app_origin = true;
      }
      ∷ [];
}

validate-Holds_example :
    (r : AssertionResult) × (Network.validate
        (PlanCondition.network_state no_server_errors)
        failing_page
      ≡ some r)
    × ((r.ok ≡ true) ↔ HoldsOn no_server_errors NetworkExpected.no_5xx failing_page.network_signals)
validate-Holds_example = validate-Holds no_server_errors failing_page

most_severe_exit_code-IsFirstWorst_example :
    IsFirstWorst (ExitCode.success ∷ ExitCode.timeout ∷ ExitCode.onboarding_blocked ∷ []) (
      most_severe_exit_code
        (ExitCode.success ∷ ExitCode.timeout ∷ ExitCode.onboarding_blocked ∷ []))
most_severe_exit_code-IsFirstWorst_example =
    most_severe_exit_code-IsFirstWorst ExitCode.success
      (ExitCode.timeout ∷ ExitCode.onboarding_blocked ∷ [])

abbrev hunk : Hunk
hunk = record {
  old_start = codes "3";
  old_count = some (codes "2");
  new_start = codes "4";
  new_count = some (codes "2");
  section = codes " main";
  lines =
      record { type = DiffLineType.context; content = codes "a" }
      ∷ record { type = DiffLineType.removed; content = codes "b" }
      ∷ record { type = DiffLineType.added; content = codes "c" }
      ∷ [];
}

hunk-IsHunk : IsHunk hunk
unfolding is_file_metadata_line
hunk-IsHunk = record {
  old_number = ground arith;
  old_counted = ground arith;
  new_number = ground arith;
  new_counted = ground arith;
  old_positive = omega arith;
  new_positive = omega arith;
  plain = (refl, (refl, (refl, tt)));
}

hunk-lines : All IsLine (hunk_texts (hunk ∷ []))
hunk-lines = ground arith

parse_lines-rendered_example :
    parse_lines DiffLineType.added (join_lines (hunk_texts (hunk ∷ [])))
    ≡ ok (record { type = DiffLineType.added; line_number = 5; content = codes "c" } ∷ [])
parse_lines-rendered_example =
    parse_lines-rendered DiffLineType.added hunk [] (hunk-IsHunk, tt) hunk-lines

abbrev calls : List Op
calls =
    Op.ensure_op "s" "t" "open" "home"
    ∷ Op.observe_op "s" "t" page
    ∷ Op.action_op "s" "t" wait "PASSED"
    ∷ Op.reject_op "s" "t" "too early" none
    ∷ []

run_ops-AreBounded_example : AreBounded (run_ops calls [])
run_ops-AreBounded_example = run_ops-AreBounded calls [] tt

abbrev matchers : Matchers
matchers = record { is_noise = λ m. false; is_deprecation = λ m. false; host = λ u. "app" }

abbrev server_error : Signal
server_error = record {
  signal_type = BugSignalType.app_network_5xx;
  message = "GET /api 503";
  source = some "https://app/api";
  status = some 503;
  level = none;
}
