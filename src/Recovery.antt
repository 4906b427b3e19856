-- ===== src/Recovery.antt =====
-- src/application/services/recovery-policy.service.ts: fallback actions after a failed step.
pub mod Laws
use mathlib.Core.Logic.{ite}
use qa_agent.Prelude.{
  ℕ, ◌+◌, String, ◌<>◌, Bool, true, false, not, ◌&&◌, ◌||◌, List, [], ◌∷◌, ◌++◌, Option, none, some,
  str_eq, join, take, any, if◌then◌else◌, or_else,
}
use qa_agent.Domain.Action.{QaAction, ActionBody, Key, action_type, ActionBody-discrete}
use qa_agent.Domain.Observation.{ScreenObservation, ObservableElement, BoundExpected}
use qa_agent.Domain.Run.{AttemptRecord, AttemptStatus, ActionError, ExecResult}
use qa_agent.Effect.{Eff, Outcome, done, threw, interrupted, ◌>>=◌, ◌>>◌, pure, try_catch}
use qa_agent.Ports.{Ports}

-- The key of `uniqueActions` is the action without its reason.
same_body : ActionBody → ActionBody → Bool
same_body a b = ite (ActionBody-discrete a b) true false

-- `filter` with the set of the keys seen.
unfoldable pub unique_from : List ActionBody → List QaAction → List QaAction
unfolding same_body
unique_from seen [] = []
unique_from seen (a ∷ rest) =
    let kept = unique_from (a.body ∷ seen) rest in
    let skipped = unique_from seen rest in if any (same_body a.body) seen then skipped else a ∷ kept

unfoldable pub unique_actions : List QaAction → List QaAction
unfolding unique_from
unique_actions = unique_from []

pub record RecoveryInput : Type 0 where
  pub expected : BoundExpected
  pub fallback : QaAction
  pub quiescence_ms : ℕ
  pub max_fallbacks : ℕ
  pub max_emergency_actions : ℕ
  pub before_observation : Option ScreenObservation

-- The actions that `recover` may try, in order.
unfoldable pub candidates : RecoveryInput → List QaAction
candidates input = take (input.max_fallbacks + input.max_emergency_actions) (
    unique_actions (
      input.fallback
      ∷ record { body = ActionBody.press Key.escape none; reason = "default recovery escape" }
      ∷ record { body = ActionBody.click_outside; reason = "default recovery outside click" }
      ∷ record {
        body = ActionBody.wait_for_stable (some input.quiescence_ms);
        reason = "default recovery wait for stable UI";
      }
      ∷ []))

-- The attempts that `recover` pushes, and its result.
pub record Recovered : Type 0 where
  pub ok : Bool
  pub action : Option QaAction
  pub reason : Option String
  pub attempts : List AttemptRecord

flag : Option Bool → String
flag none = ""
flag (some true) = "true"
flag (some false) = "false"

-- The template of one element in `changed`.
element_line : ObservableElement → String
unfolding flag
element_line e =
    e.role <> ":" <> e.name <> ":" <> flag (some e.in_viewport) <> ":" <> flag e.expanded

unfoldable pub element_lines : List ObservableElement → List String
unfolding element_line
element_lines [] = []
element_lines (e ∷ es) = element_line e ∷ element_lines es

unfoldable pub changed : ScreenObservation → ScreenObservation → Bool
unfolding element_lines
changed b a =
    not (str_eq b.url a.url)
    || not (str_eq b.title a.title)
    || not (str_eq (join "|" (take 10 b.visible_texts)) (join "|" (take 10 a.visible_texts)))
    || not (
        str_eq (join "|" (element_lines (take 15 b.elements)))
          (join "|" (element_lines (take 15 a.elements))))

is_wait : ActionBody → Bool
is_wait (ActionBody.wait_for_stable _) = true
is_wait _ = false

unchanged : Option ScreenObservation → Option ScreenObservation → Bool
unfolding changed
unchanged (some b) (some a) = not (changed b a)
unchanged _ _ = false

-- `exec.error?.message`
message_of : Option ActionError → Option String
message_of none = none
message_of (some e) = some e.message

unfoldable pub error_message : ExecResult → Option String
unfolding message_of
error_message exec = message_of exec.error

unfoldable pub attempt_of : QaAction → ExecResult → AttemptRecord
unfolding error_message
attempt_of action exec = record {
  action_type = action_type action.body;
  result = if exec.ok then AttemptStatus.recovered else AttemptStatus.failed;
  reason = error_message exec;
}

-- What is recorded where an action has changed nothing that can be seen.
abbrev no_change : AttemptRecord
no_change = record {
  action_type = "recovery-observe";
  result = AttemptStatus.failed;
  reason = some "recovery action did not change observable state";
}

unfoldable pub observed :
    QaAction → Option ScreenObservation → Option ScreenObservation → List AttemptRecord
unfolding is_wait unchanged
observed action before after =
    if unchanged before after && not (is_wait action.body) then no_change ∷ [] else []

-- `after ?? before`
unfoldable pub latest :
    Option ScreenObservation → Option ScreenObservation → Option ScreenObservation
latest none before = before
latest (some a) before = some a

-- The attempts of the action just tried stand before those of the rest of the loop.
unfoldable pub prepend : List AttemptRecord → Recovered → Recovered
prepend pushed r = record r { attempts = pushed ++ r.attempts }

module _ (ports : Ports) where
  open ports use {World, execute, wait_for_quiescence, browser_observe, validate}

  -- `await this.browser.observe().catch(() => undefined)`
  unfoldable pub observe_safely : Eff World (Option ScreenObservation)
  observe_safely = try_catch (do obs ← browser_observe; pure (some obs)) (pure none)

  -- The loop of `recover`.
  unfoldable pub try_actions :
      RecoveryInput → List QaAction → Option ScreenObservation → Eff World Recovered
  try_actions input [] before =
      pure (record { ok = false; action = none; reason = some "RECOVERY_EXHAUSTED"; attempts = [] })
  try_actions input (action ∷ rest) before = do
    exec ← execute action
    wait_for_quiescence input.quiescence_ms
    after ← observe_safely
    validation ← validate input.expected
    let pushed = attempt_of action exec ∷ observed action before after
    if exec.ok && validation.ok
        then pure (record { ok = true; action = some action; reason = none; attempts = pushed })
        else do r ← try_actions input rest (latest after before); pure (prepend pushed r)

  unfoldable pub recover : RecoveryInput → Eff World Recovered
  unfolding try_actions candidates
  recover input = try_actions input (candidates input) input.before_observation
