-- ===== src/Scenario/Tests.antt =====
-- The theorems at work on the small run.
use qa_agent.Prelude.{ℕ, refl, ◌≡◌, true, some, none, Option, has_word, Bool, String, length, ◌≤◌}
use qa_agent.Domain.Plan.{ExecutionPlan, ExecutionStep, ReplanReason}
use qa_agent.Domain.Observation.{BoundExpected}
use qa_agent.Effect.Ensures.{Ensures}
use qa_agent.Effect.Leaves.{Leaves}
use qa_agent.Recovery.Laws.{Explains, tried, recover-Explains, recover_budget}
use qa_agent.Runner.Laws.{IsReplan, try_replan-IsReplan}
use qa_agent.Runner.Checks.{Explained, check_all-Explained}
use qa_agent.Runner.Final.{FinalPassed}
use qa_agent.Runner.Versions.{IsVersionOf}
use qa_agent.Graph.Ends.{execute_plan_verdict}
use qa_agent.Graph.Nodes.Act.Guards.{
  Guarded, Harmless, policy_guard_node-Guarded, destructive_guard_node-Harmless,
}
use qa_agent.Policy
use qa_agent.Policy.{validate_destructive_text, looks_destructive}
use qa_agent.Network
use qa_agent.Recovery.{
  RecoveryInput, recover, try_actions, candidates, unique_actions, unique_from, changed,
  error_message, attempt_of, prepend, latest, observed, element_lines, observe_safely,
}
use qa_agent.Effect.{Outcome, done, ◌>>=◌, pure, need, try_catch}
use qa_agent.Scenario.Values.{patched, patch-applies}
use qa_agent.Plan.Patch.{history_of}
use qa_agent.Runner.{
  Replan, ask_replan, is_plan_and_execute, settle, plan_of, no_plan, try_replan, observe, check_all,
  check_one, condition_evaluations, plan_step,
}
use qa_agent.Graph.Run
use qa_agent.Graph.Run.{
  ApprovalRequest, Executed, execute_plan, settle_pauses, stepped, superstep, run, invoke,
}
use qa_agent.Graph.Route.{
  route, unless_done, policy_next, after_precheck, after_resolve, after_postcheck, after_repeat,
  after_replan, after_advance,
}
use qa_agent.Graph.Nodes.{node}
use qa_agent.Graph.Nodes.Act.{
  step_at, observe_node, precheck_node, resolve_action_node, policy_guard_node,
  destructive_guard_node, execute_node, observe_after_node,
}
use qa_agent.Graph.Nodes.Check.{postcheck_node, assertions_node, repeat_until_node}
use qa_agent.Graph.Nodes.Settle.{advance_node, final_assertions_node}
use qa_agent.Graph.State.{State, initial}
use qa_agent.Ports.{Ports}
use qa_agent.Scenario.{patch, demo, json, config, plan, page, wait, step}

abbrev ended : Executed ℕ ℕ → State ℕ
ended (Executed.returned s w) = s
ended (Executed.thrown s w) = s
ended (Executed.waiting s w) = s

abbrev approve : ApprovalRequest → ℕ → Outcome ℕ Bool
approve r w = done true w

abbrev step_of : String → ExecutionStep
step_of id = step id "wait"

abbrev demo_run : Executed ℕ ℕ
demo_run = execute_plan demo json config approve 3 plan 0

abbrev world_of : Executed ℕ ℕ → ℕ
world_of (Executed.returned s w) = w
world_of (Executed.thrown s w) = w
world_of (Executed.waiting s w) = w

demo_returns : demo_run ≡ Executed.returned (ended demo_run) (world_of demo_run)
unfolding execute_plan settle_pauses invoke initial run Run.step stepped superstep node route
    unless_done policy_next after_precheck after_resolve after_postcheck after_repeat after_replan
    after_advance step_at observe_node precheck_node resolve_action_node policy_guard_node
    destructive_guard_node execute_node observe_after_node postcheck_node assertions_node
    repeat_until_node advance_node final_assertions_node observe check_all check_one
    condition_evaluations plan_step recover try_actions candidates unique_actions unique_from
    changed error_message attempt_of prepend latest observed element_lines observe_safely try_catch
    ◌>>=◌ pure need Policy.validate validate_destructive_text looks_destructive has_word
    Network.validate
demo_returns = refl

-- The run needs the recovery, for its first check fails.
demo_ok : ((ended demo_run).ok ≡ true) × (world_of demo_run ≡ 2)
unfolding execute_plan settle_pauses invoke initial run Run.step stepped superstep node route
    unless_done policy_next after_precheck after_resolve after_postcheck after_repeat after_replan
    after_advance step_at observe_node precheck_node resolve_action_node policy_guard_node
    destructive_guard_node execute_node observe_after_node postcheck_node assertions_node
    repeat_until_node advance_node final_assertions_node observe check_all check_one
    condition_evaluations plan_step recover try_actions candidates unique_actions unique_from
    changed error_message attempt_of prepend latest observed element_lines observe_safely try_catch
    ◌>>=◌ pure need Policy.validate validate_destructive_text looks_destructive has_word
    Network.validate
demo_ok = (refl, refl)

execute_plan_verdict_example :
    IsVersionOf plan (ended demo_run).current_plan (ended demo_run).replans
    × ((ended demo_run).ok ≡ true → FinalPassed demo plan.assertions (world_of demo_run))
execute_plan_verdict_example =
    execute_plan_verdict demo plan json config approve 3 0 (ended demo_run) (world_of demo_run)
      demo_returns

check_all-Explained_example :
    Ensures
      (Explained demo page none none plan.assertions)
      (check_all demo plan.assertions page none none)
check_all-Explained_example = check_all-Explained demo plan.assertions page none none

-- A provider that decides on a patch.
abbrev replanner : Ports
replanner = record demo { decide_patch = λ p s o r m w. done patch w }

abbrev replan_of : Outcome ℕ Replan → Option ExecutionPlan
replan_of (done r w) = r.plan
replan_of _ = none

-- The replan gives the patched plan.
replans_example :
    replan_of (
      try_replan replanner json config plan
        (step_of "s1")
        page
        ReplanReason.assertion_failed
        "slow"
        0
        0)
    ≡ some patched.plan
unfolding try_replan ask_replan is_plan_and_execute settle plan_of no_plan try_catch ◌>>=◌ pure
    history_of
replans_example = rw patch-applies refl

try_replan-IsReplan_example : Ensures (IsReplan json plan 0) (
    try_replan replanner json config plan
      (step_of "s1")
      page
      ReplanReason.assertion_failed
      "slow"
      0)
try_replan-IsReplan_example =
    try_replan-IsReplan replanner json config plan (step_of "s1") page ReplanReason.assertion_failed
      "slow" 0

abbrev at_guard : State ℕ
at_guard = record (initial plan) { current_action = some wait; before = some page }

abbrev input : RecoveryInput
input = record {
  expected = BoundExpected.no_console_errors;
  fallback = wait;
  quiescence_ms = 100;
  max_fallbacks = 2;
  max_emergency_actions = 1;
  before_observation = some page;
}

policy_guard_node-Guarded_example :
    Ensures (Guarded demo config at_guard wait) (policy_guard_node demo config at_guard)
policy_guard_node-Guarded_example = policy_guard_node-Guarded demo config at_guard wait refl

destructive_guard_node-Harmless_example :
    Ensures (Harmless demo config at_guard) (destructive_guard_node demo config at_guard)
destructive_guard_node-Harmless_example = destructive_guard_node-Harmless demo config at_guard

recover-Explains_example :
    Leaves (Explains demo input.expected (candidates input)) (recover demo input)
recover-Explains_example = recover-Explains demo input

recover_budget_example : Ensures (λ r. length (tried r.attempts) ≤ 3) (recover demo input)
recover_budget_example = recover_budget demo input
