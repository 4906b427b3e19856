-- ===== src/Availability.antt =====
-- src/application/services/element-availability-resolver.service.ts: a container is opened for an
-- element that is not there.
pub mod Container
pub mod Answer
use qa_agent.Prelude.{
  ℕ, zero, suc, String, Bool, true, false, not, List, [], ◌∷◌, ◌++◌, Option, none, some, Text,
  is_some, ◌==◌, if◌then◌else◌,
}
use qa_agent.Domain.Action.{Locator, QaAction, action_type}
use qa_agent.Domain.Observation.{ScreenObservation}
use qa_agent.Domain.Run.{AttemptRecord, AttemptStatus, ExecResult, QuiescenceResult}
use qa_agent.Effect.{Eff, ◌>>=◌, ◌>>◌, pure, try_catch}
use qa_agent.Availability.Container.{
  SemanticContainerDescriptor, pick_container, resolve_plan_action,
}

pub data FoundReason : Type 0 where
  found_directly found_after_open_container not_found policy_disabled max_attempts_exceeded :
      FoundReason

pub record EnsureElementAvailablePolicy : Type 0 where
  pub enabled : Bool
  pub max_open_attempts : ℕ
  pub allowed_containers : List SemanticContainerDescriptor

pub record EnsureElementAvailableResult : Type 0 where
  pub available : Bool
  pub observation : ScreenObservation
  pub opened_container : Option String
  pub reobserved : Bool
  pub reason : FoundReason
  pub attempts : List AttemptRecord

-- The browser, the search of the locator resolver with `none` where it throws, and `toLowerCase`.
pub record AvailabilityPorts : Type 1 where
  pub World : Type 0
  pub execute : QaAction → Eff World ExecResult
  pub wait_for_quiescence : ℕ → Eff World QuiescenceResult
  pub observe : Eff World ScreenObservation
  pub rebuild : ScreenObservation → Eff World (Unit {0})
  pub find_by_locator : ScreenObservation → Locator → Option String
  pub lower : String → Text

-- `{ actionType, result, reason }` of an opening.
pub attempt_of : QaAction → ExecResult → AttemptRecord
attempt_of action exec = record {
  action_type = action_type action.body;
  result = if exec.ok then AttemptStatus.passed else AttemptStatus.failed;
  reason = elim exec.error [ none ↦ none | some e ↦ some e.message ];
}

module _ (ports : AvailabilityPorts) (quiescence_ms : ℕ) (policy : EnsureElementAvailablePolicy)
    (target : Locator) where
  open ports use {World, execute, wait_for_quiescence, observe, rebuild, find_by_locator, lower}

  unfoldable pub exists_in : ScreenObservation → Bool
  exists_in obs = is_some (find_by_locator obs target)

  -- The answer behind the loop; `reobserved` tells whether the observation is a new one.
  unfoldable pub missing_result :
      ScreenObservation → Bool → List AttemptRecord → EnsureElementAvailableResult
  missing_result current reobserved attempts = record {
    available = false;
    observation = current;
    opened_container = none;
    reobserved = reobserved;
    reason =
        if policy.max_open_attempts == 0
        then FoundReason.max_attempts_exceeded
        else FoundReason.not_found;
    attempts = attempts;
  }

  unfoldable pub opened_result :
      SemanticContainerDescriptor
      → ScreenObservation
      → List AttemptRecord
      → EnsureElementAvailableResult
  opened_result container current attempts = record {
    available = true;
    observation = current;
    opened_container = some container.semantic_key;
    reobserved = true;
    reason = FoundReason.found_after_open_container;
    attempts = attempts;
  }

  unfoldable pub direct_result :
      ScreenObservation → Bool → List AttemptRecord → EnsureElementAvailableResult
  direct_result current reobserved attempts = record {
    available = true;
    observation = current;
    opened_container = none;
    reobserved = reobserved;
    reason = FoundReason.found_directly;
    attempts = attempts;
  }

  -- `waitForQuiescence(…).catch(() => undefined)`
  settle : Eff World (Unit {0})
  settle = try_catch (wait_for_quiescence quiescence_ms >>= λ _. pure tt) (pure tt)

  -- The page after an action that opens a container.
  unfoldable pub open_container : QaAction → Eff World (ExecResult × ScreenObservation)
  unfolding settle
  open_container action = do
    exec ← execute action
    settle
    current ← observe
    rebuild current
    pure (exec, current)

  -- The loop over the openings that are left.
  unfoldable pub open_attempts :
      ℕ → ScreenObservation → Bool → List AttemptRecord → Eff World EnsureElementAvailableResult
  unfolding attempt_of
  open_attempts zero current reobserved attempts = pure (missing_result current reobserved attempts)
  open_attempts (suc left) current reobserved attempts =
      elim (pick_container lower target policy.allowed_containers) [
        | none ↦
            if exists_in current
            then pure (direct_result current reobserved attempts)
            else pure (missing_result current reobserved attempts)
        | some container ↦
            elim (resolve_plan_action (find_by_locator current) container.open_action) [
              | none ↦ pure (missing_result current reobserved attempts)
              | some action ↦ open_container action >>= λ opened.
                  let more = attempts ++ (attempt_of action opened.0 ∷ []) in
                  if exists_in opened.1
                  then pure (opened_result container opened.1 more)
                  else open_attempts left opened.1 true more
            ]
      ]

  unfoldable pub ensure_available : ScreenObservation → Eff World EnsureElementAvailableResult
  ensure_available observation =
      if exists_in observation
      then pure (direct_result observation false [])
      else if not policy.enabled
      then pure
          (record (missing_result observation false []) { reason = FoundReason.policy_disabled })
      else open_attempts policy.max_open_attempts observation false []
