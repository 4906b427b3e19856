-- ===== src/Executor/Attempt.antt =====
-- One attempt at a step, in the order of the code: the preconditions, the action with its policies, its
-- execution, and the checks of what it did.
pub mod Frame
use qa_agent.Prelude.{
  ℕ, zero, suc, ◌+◌, ◌-◌, String, ◌<>◌, Bool, true, false, not, ◌&&◌, ◌||◌, List, [], ◌∷◌, ◌++◌,
  Option, none, some, ltb, or_else, last?, show, if◌then◌else◌,
}
use qa_agent.Domain.Action.{QaAction, ActionBody, Key}
use qa_agent.Domain.Plan.{ExecutionStep, ExecutionPlan, PlanCondition, ReplanReason}
use qa_agent.Domain.Config.{RunConfig}
use qa_agent.Domain.Observation.{ScreenObservation, BoundExpected}
use qa_agent.Domain.Run.{
  AttemptRecord, AssertionResult, ExecResult, QuiescenceResult, QaStep, Warning, Phase,
  ConditionEvaluation, LocatorTelemetryEvent, TelemetryType,
}
use qa_agent.Effect.{
  Eff, Outcome, done, threw, interrupted, ◌>>=◌, ◌>>◌, pure, raise, need, try_catch,
}
use qa_agent.Plan.Schema.{Stringify}
use qa_agent.Policy
use qa_agent.Policy.{Verdict, allowed, denied}
use qa_agent.Ports.{Ports}
use qa_agent.Recovery.{Recovered, recover}
use qa_agent.Runner
use qa_agent.Runner.{HistoryItem, Replan, check_all, condition_evaluations, plan_step, try_replan}
use qa_agent.Graph.State.{iteration_of}
use qa_agent.Graph.Nodes.Act.{
  event, is_click, keep_extracted, remember_action, settle_page, unstable, timeout_attempt,
  attempt_record, is_audited, audit_after,
}
use qa_agent.Graph.Nodes.Check.{first_or, continues}
use qa_agent.Graph.Nodes.Settle.{wait_action}
use qa_agent.Executor.Result.{PlanExecutionResult}

-- The variables of the loop, with the lists of `result`. Its `finalPlan` is the current plan.
pub record Loop : Type 0 where
  pub current_plan : ExecutionPlan
  pub step_index : ℕ
  pub replans : ℕ
  pub iterations : List (String × ℕ)
  pub steps : List QaStep
  pub attempts : List AttemptRecord
  pub warnings : List Warning
  pub patch_history : List HistoryItem
  pub evaluations : List ConditionEvaluation
  pub locator_telemetry : List LocatorTelemetryEvent

-- How an attempt ends: the step passed, with or without another turn; there is another plan; the next
-- attempt is tried; or the execution returns.
pub data AttemptEnd : Type 0 where
  passed : Loop → AttemptEnd
  repeated : Loop → AttemptEnd
  patched : Loop → AttemptEnd
  failed : Loop → AttemptEnd
  ended : PlanExecutionResult → AttemptEnd

unfoldable pub result_of : Loop → PlanExecutionResult
result_of s = record {
  ok = true;
  steps = s.steps;
  attempts = s.attempts;
  warnings = s.warnings;
  final_plan = s.current_plan;
  patch_history = s.patch_history;
  evaluations = s.evaluations;
  locator_telemetry = s.locator_telemetry;
  failed_step = none;
  failed_observation = none;
  failed_message = none;
}

-- `fail`, for a step that the result has already.
unfoldable pub fail_old : Loop → QaStep → ScreenObservation → String → PlanExecutionResult
unfolding result_of
fail_old s qa_step obs message = record (result_of s) {
  ok = false;
  failed_step = some qa_step;
  failed_observation = some obs;
  failed_message = some message;
}

-- `fail`, for a step that is new.
unfoldable pub fail_new : Loop → QaStep → ScreenObservation → String → PlanExecutionResult
unfolding fail_old
fail_new s qa_step obs message =
    fail_old (record s { steps = s.steps ++ (qa_step ∷ []) }) qa_step obs message

abbrev warned : Loop → ExecutionStep → String → Loop
warned s step message = record s {
  warnings = s.warnings ++ (record { step_id = step.id; message = message } ∷ []);
}

-- `pre.actual ?? pre.expected ?? pre.type`
abbrev precondition_message : AssertionResult → String
precondition_message pre =
    "Precondition failed: " <> or_else pre.actual (or_else pre.expected pre.type)

-- The message of the policy that refuses, that of the action first.
abbrev refusal : Verdict → Verdict → Option String
refusal (denied code message) text = some message
refusal allowed (denied code message) = some message
refusal allowed allowed = none

-- What stands once the action was executed.
pub record Acted : Type 0 where
  pub action : QaAction
  pub exec : ExecResult
  pub quiescence : Option QuiescenceResult
  pub after : ScreenObservation

module _ (ports : Ports) (json : Stringify) (config : RunConfig) where
  open ports use {
    World, Snapshot, execute, runtime_state, accessibility_warnings, resolve_plan_action,
    resolve_action, ensure_available, bound_condition, decide_action,
  }

  -- A replan, or else what follows; `tryReplan` pushes to the result.
  pub replan_or :
      Loop
      → ExecutionStep
      → ScreenObservation
      → ReplanReason
      → String
      → (Loop → Eff World AttemptEnd)
      → Eff World AttemptEnd
  replan_or s step before reason message otherwise = do
    r ← try_replan ports json config s.current_plan step before reason message s.replans
    let s' = record s {
      patch_history = s.patch_history ++ r.history;
      locator_telemetry = s.locator_telemetry ++ (event step TelemetryType.replan ∷ []);
    }
    elim r.plan [
      | none ↦ otherwise s'
      | some plan ↦
          pure (AttemptEnd.patched (record s' { current_plan = plan; replans = s'.replans + 1 }))
    ]

  -- The end of the turn, and `repeatUntil`.
  unfoldable pub repeat_or_pass :
      ExecutionStep
      → ScreenObservation
      → Option Snapshot
      → Option Snapshot
      → Option PlanCondition
      → Loop
      → Eff World AttemptEnd
  repeat_or_pass step after before_state after_state none s = pure (AttemptEnd.passed s)
  repeat_or_pass step after before_state after_state (some condition) s = do
    r ← check_all ports (condition ∷ []) after before_state after_state
    let iteration = or_else (iteration_of step.id s.iterations) 1 + 1
    if r.ok
        then pure (AttemptEnd.passed s)
        else if ltb (or_else step.max_iterations 10) iteration
        then (do
          last ← need (last? s.steps)
          pure (
              AttemptEnd.ended (
                fail_old s last after
                  ("repeatUntil exhausted after " <> show (iteration - 1) <> " iterations"))))
        else pure
            (AttemptEnd.repeated (record s { iterations = (step.id, iteration) ∷ s.iterations }))

  -- What follows a step that was pushed and did not pass: the next attempt, a replan, or the failure.
  unfoldable pub retry_or_fail :
      ℕ
      → ExecutionStep
      → ScreenObservation
      → ReplanReason
      → String
      → QaStep
      → Loop
      → Eff World AttemptEnd
  retry_or_fail zero step after reason message qa_step s =
      replan_or s step after reason message
        (λ s'. pure (AttemptEnd.ended (fail_old s' qa_step after message)))
  retry_or_fail (suc left) step after reason message qa_step s = pure (AttemptEnd.failed s)

  -- The business assertions.
  unfoldable pub check_business :
      ℕ
      → ExecutionStep
      → Option Snapshot
      → Option Snapshot
      → Acted
      → AssertionResult
      → Loop
      → Eff World AttemptEnd
  unfolding repeat_or_pass retry_or_fail
  check_business left step before_state after_state d post s = do
    business ← check_all ports step.assertions d.after before_state after_state
    let s' = record s {
      evaluations =
          s.evaluations
          ++ condition_evaluations step Phase.business_assertion step.assertions business;
    }
    let fallback = first_or step.postconditions PlanCondition.no_console_errors
    if business.ok
        then (do
          expected ← bound_condition fallback d.after
          repeat_or_pass step d.after before_state after_state step.repeat_until (record s' {
            steps =
                s'.steps ++ (plan_step step d.after d.action expected post d.quiescence none ∷ []);
          }))
        else (do
          expected ← bound_condition (first_or step.assertions fallback) d.after
          let qa_step =
              plan_step step d.after d.action expected business d.quiescence
                (some "business assertion failed")
          retry_or_fail left step d.after ReplanReason.assertion_failed
              (or_else business.actual "business assertion failed") qa_step
              (record s' { steps = s'.steps ++ (qa_step ∷ []) }))

  -- The page is observed and checked again after a recovery that succeeded.
  unfoldable pub recheck :
      ExecutionStep → Option Snapshot → AssertionResult → Recovered → Eff World AssertionResult
  recheck step before_state post recovered =
      if recovered.ok
      then (do
        obs ← Runner.observe ports step
        snapshot ← runtime_state obs step.postconditions
        check_all ports step.postconditions obs before_state (some snapshot))
      else pure post

  unfoldable pub after_recovery :
      ℕ
      → ExecutionStep
      → Option Snapshot
      → Acted
      → AssertionResult
      → Recovered
      → Loop
      → Eff World AttemptEnd
  unfolding recheck retry_or_fail
  after_recovery left step before_state d post recovered s =
      if not recovered.ok && continues step.on_failure
      then pure (AttemptEnd.passed (warned s step (or_else post.actual "postcondition failed")))
      else (do
        validation ← recheck step before_state post recovered
        expected ←
            bound_condition (first_or step.postconditions PlanCondition.no_console_errors) d.after
        let qa_step =
            plan_step step d.after d.action expected validation d.quiescence
              (if validation.ok then none else some "RECOVERY_EXHAUSTED")
        let s' = record s { steps = s.steps ++ (qa_step ∷ []) }
        if validation.ok
            then pure (AttemptEnd.passed s')
            else retry_or_fail left step d.after
                (if recovered.ok
                  then ReplanReason.postcondition_failed
                  else ReplanReason.recovery_failed)
                (or_else validation.actual "postcondition failed") qa_step s')

  -- The postconditions, with a recovery where they or the action failed.
  unfoldable pub check_post :
      ℕ → ExecutionStep → Option Snapshot → Acted → Loop → Eff World AttemptEnd
  unfolding check_business after_recovery
  check_post left step before_state d s = do
    after_state ← runtime_state d.after (step.postconditions ++ step.assertions)
    post ← check_all ports step.postconditions d.after before_state (some after_state)
    let s' = record s {
      evaluations =
          s.evaluations ++ condition_evaluations step Phase.postcondition step.postconditions post;
    }
    if d.exec.ok && post.ok
        then check_business left step before_state (some after_state) d post s'
        else (do
          expected ←
              bound_condition (first_or step.postconditions PlanCondition.no_console_errors) d.after
          recovered ← recover ports (record {
            expected = expected;
            fallback = record {
              body = ActionBody.press Key.escape none;
              reason = "plan step recovery escape";
            };
            quiescence_ms = config.quiescence_ms;
            max_fallbacks = config.max_fallbacks_per_step;
            max_emergency_actions = config.max_emergency_actions_per_scenario;
            before_observation = some d.after;
          })
          after_recovery left step before_state d post recovered
              (record s' { attempts = s'.attempts ++ recovered.attempts }))

  -- The execution of an action that the policies let through.
  unfoldable pub perform :
      ℕ → ExecutionStep → Option Snapshot → QaAction → Loop → Eff World AttemptEnd
  unfolding check_post
  perform left step before_state action s = do
    exec ← execute action
    keep_extracted ports config action.body (if exec.ok then exec.extracted else none)
    remember_action ports config step action exec.ok
    quiescence ← settle_page ports config exec
    after ← Runner.observe ports step
    audit ← audit_after ports (is_audited ports action.body) step
    check_post left step before_state
        (record { action = action; exec = exec; quiescence = quiescence; after = after })
        (record s {
          attempts =
              s.attempts
              ++ (attempt_record ports config action exec
                  ∷ (if unstable ports config quiescence
                      then timeout_attempt ports config ∷ []
                      else []));
          warnings =
              (s.warnings
                ++ (if unstable ports config quiescence
                    then record { step_id = step.id; message = "QUIESCENCE_TIMEOUT" } ∷ []
                    else []))
              ++ audit;
        })

  -- The two policies.
  unfoldable pub guard :
      ℕ
      → ExecutionStep
      → ScreenObservation
      → Option Snapshot
      → QaAction
      → Loop
      → Eff World AttemptEnd
  unfolding perform
  guard left step before before_state action s =
      elim (refusal (Policy.validate action config s.attempts)
        (Policy.validate_destructive_text (step.description <> " " <> action.reason) config)) [
          | none ↦ perform left step before_state action s
          | some message ↦ pure (
              AttemptEnd.ended (
                fail_new s
                  (plan_step step before action BoundExpected.no_console_errors
                    (record { ok = false; type = "policy"; expected = none; actual = some message })
                    none (some message))
                  before message))
        ]

  -- The decision provider is asked for the action; where it throws, a replan, or the first error.
  ask_provider :
      ℕ → ExecutionStep → ScreenObservation → Option Snapshot → String → Loop → Eff World AttemptEnd
  unfolding guard replan_or
  ask_provider left step before before_state message s = do
    decided ← try_catch (do a ← decide_action step before; pure (some a)) (pure none)
    elim decided [
      | some action ↦ guard left step before before_state action (record s {
        locator_telemetry = s.locator_telemetry ++ (event step TelemetryType.llm_decide ∷ []);
      })
      | none ↦ replan_or s step before ReplanReason.locator_not_found message (λ s'. raise)
    ]

  -- The `catch` of `resolveAction`.
  unfoldable pub resolve_otherwise :
      ℕ → ExecutionStep → ScreenObservation → Option Snapshot → String → Loop → Eff World AttemptEnd
  unfolding ask_provider guard
  resolve_otherwise left step before before_state message s = do
    audit ← accessibility_warnings step.id
    available ← ensure_available step before
    let s' = record s {
      attempts = s.attempts ++ available.attempts;
      warnings = s.warnings ++ audit;
      locator_telemetry = s.locator_telemetry ++ (event step TelemetryType.target_not_found ∷ []);
    }
    if available.available
        then (do
          again ← resolve_action step available.observation
          action ← need again.action
          guard left step available.observation before_state action
              (record s' { locator_telemetry = s'.locator_telemetry ++ again.telemetry }))
        else ask_provider left step before before_state message s'

  unfoldable pub resolve :
      ℕ → ExecutionStep → ScreenObservation → Option Snapshot → Loop → Eff World AttemptEnd
  unfolding resolve_otherwise guard
  resolve left step before before_state s = do
    first ← resolve_action step before
    let s' = record s { locator_telemetry = s.locator_telemetry ++ first.telemetry }
    elim first.action [
      | some action ↦ guard left step before before_state action s'
      | none ↦ resolve_otherwise left step before before_state first.message s'
    ]

  -- `ensureActionTargetAvailable` before a click.
  unfoldable pub prepare :
      Bool → ℕ → ExecutionStep → ScreenObservation → Option Snapshot → Loop → Eff World AttemptEnd
  unfolding resolve
  prepare true left step before before_state s = do
    available ← ensure_available step before
    resolve left step (if available.reobserved then available.observation else before) before_state
        (record s { attempts = s.attempts ++ available.attempts })
  prepare false left step before before_state s = resolve left step before before_state s

  pub refuse : ExecutionStep → ScreenObservation → AssertionResult → Loop → Eff World AttemptEnd
  refuse step before pre s = pure (
      AttemptEnd.ended (
        fail_new s
          (plan_step step before (wait_action (precondition_message pre))
            BoundExpected.no_console_errors pre none (some (precondition_message pre)))
          before (precondition_message pre)))

  -- What follows a precondition that fails: at once, without another attempt.
  unfoldable pub unprepared :
      ExecutionStep → ScreenObservation → AssertionResult → Loop → Eff World AttemptEnd
  unfolding replan_or
  unprepared step before pre s =
      if continues step.on_failure
      then pure (AttemptEnd.passed (warned s step (precondition_message pre)))
      else replan_or s step before ReplanReason.precondition_failed (precondition_message pre)
          (refuse step before pre)

  -- An attempt, with the number of those that are left after it.
  unfoldable pub attempt : ℕ → ExecutionStep → Loop → Eff World AttemptEnd
  unfolding prepare unprepared
  attempt left step s = do
    before ← Runner.observe ports step
    before_state ←
        runtime_state before (step.preconditions ++ (step.postconditions ++ step.assertions))
    pre ← check_all ports step.preconditions before (some before_state) none
    let s' = record s {
      evaluations =
          s.evaluations ++ condition_evaluations step Phase.precondition step.preconditions pre;
    }
    if pre.ok
        then (do
          action ← resolve_plan_action step.action
          prepare (is_click action.body && config.element_availability) left step before
              (some before_state) s')
        else unprepared step before pre s'
