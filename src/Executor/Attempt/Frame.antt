-- ===== src/Executor/Attempt/Frame.antt =====
-- What an attempt does to the variables of the loop.
use qa_agent.Prelude.{
  ℕ, zero, suc, ◌+◌, ◌≤◌, ◌≡◌, refl, subst, String, ◌<>◌, Bool, true, false, not, ◌&&◌, List, ◌∷◌,
  Option, none, some, ltb, or_else, arith, inl, inr,
}
use qa_agent.Domain.Action.{QaAction}
use qa_agent.Domain.Plan.{ExecutionStep, ExecutionPlan, PlanCondition, ReplanReason}
use qa_agent.Domain.Config.{RunConfig}
use qa_agent.Domain.Observation.{ScreenObservation}
use qa_agent.Domain.Run.{AssertionResult, QaStep}
use qa_agent.Effect.{Eff}
use qa_agent.Effect.Ensures.{
  Ensures, Ensures-pure, Ensures-raise, Ensures-if, Ensures-bind, Ensures-bind_with, Ensures-option,
}
use qa_agent.Plan.Schema.{Stringify}
use qa_agent.Policy
use qa_agent.Ports.{Ports}
use qa_agent.Recovery.{Recovered}
use qa_agent.Runner.Laws.{IsNextPlan, try_replan-IsReplan}
use qa_agent.Graph.State.{iteration_of}
use qa_agent.Graph.Nodes.Check.{continues}
use qa_agent.Executor.Attempt.{
  Loop, AttemptEnd, Acted, passed, repeated, patched, failed, ended, result_of, fail_old, fail_new,
  replan_or, repeat_or_pass, retry_or_fail, check_business, after_recovery, check_post, perform,
  refusal, guard, ask_provider, resolve_otherwise, resolve, prepare, refuse, unprepared, attempt,
}

-- The variables that decide which step is next are as they were.
pub record Same (p : ExecutionPlan) (n i : ℕ) (its : List (String × ℕ)) (t : Loop) : Type 0 where
  pub plan : t.current_plan ≡ p
  pub replans : t.replans ≡ n
  pub index : t.step_index ≡ i
  pub iterations : t.iterations ≡ its

abbrev pub next_iteration : ExecutionStep → List (String × ℕ) → ℕ
next_iteration step its = or_else (iteration_of step.id its) 1 + 1

-- What each end of an attempt says, from the values that the variables had before.
abbrev pub Effected :
    Stringify → ExecutionStep → ExecutionPlan → ℕ → ℕ → List (String × ℕ) → AttemptEnd → Type 0
Effected json step p n i its (passed t) = Same p n i its t
Effected json step p n i its (failed t) = Same p n i its t
Effected json step p n i its (repeated t) =
    Same p n i ((step.id, next_iteration step its) ∷ its) t
    × (next_iteration step its ≤ or_else step.max_iterations 10)
Effected json step p n i its (patched t) =
    (t.step_index ≡ i) × (t.replans ≡ n + 1) × IsNextPlan json p n t.current_plan
Effected json step p n i its (ended r) = (r.ok ≡ false) × (r.final_plan ≡ p)

module _ (ports : Ports) (json : Stringify) (config : RunConfig) where
  open ports use {World, Snapshot}

  abbrev Ensured : ExecutionStep → Loop → Eff World AttemptEnd → Type 0
  Ensured step s m =
      Ensures (Effected json step s.current_plan s.replans s.step_index s.iterations) m

  same : (s : Loop) → Same s.current_plan s.replans s.step_index s.iterations s
  same s = record { plan = refl; replans = refl; index = refl; iterations = refl }

  replan_or-Ensured :
      (s : Loop) (step : ExecutionStep) (before : ScreenObservation) (reason : ReplanReason)
      (message : String) (otherwise : Loop → Eff World AttemptEnd)
      → ((t : Loop)
          → Same s.current_plan s.replans s.step_index s.iterations t
          → Ensured step s (otherwise t))
      → Ensured step s (replan_or ports json config s step before reason message otherwise)
  unfolding replan_or
  replan_or-Ensured s step before reason message otherwise h =
      Ensures-bind_with _ _ (try_replan-IsReplan ports json config _ step before reason message _)
        λ r is.
          Ensures-option r.plan _ _
            (λ _. h _ (record { plan = refl; replans = refl; index = refl; iterations = refl }))
            λ q given. Ensures-pure _ (
              refl,
              refl,
              elim is [
                | inl e ↦ absurd (ground (arith, e, given))
                | inr (q', e, next) ↦
                    subst (IsNextPlan json s.current_plan s.replans) (ground (arith, e, given)) next
              ],
            )

  repeat-Ensured :
      (step : ExecutionStep) (after : ScreenObservation) (b a : Option Snapshot)
      (c : Option PlanCondition) (s : Loop)
      → Ensured step s (repeat_or_pass ports json config step after b a c s)
  unfolding repeat_or_pass fail_old result_of
  repeat-Ensured step after b a none s = Ensures-pure _ (same s)
  repeat-Ensured step after b a (some c) s = Ensures-bind _ _ λ r.
      Ensures-if r.ok _ _ (λ _. Ensures-pure _ (same s))
        λ _.
          Ensures-if (ltb (or_else step.max_iterations 10) (next_iteration step s.iterations)) _ _
            (λ _. Ensures-bind _ _ λ last. Ensures-pure _ (refl, refl))
            λ within. Ensures-pure _ (
              record { plan = refl; replans = refl; index = refl; iterations = refl },
              ground (arith, within),
            )

  retry-Ensured :
      (left : ℕ) (step : ExecutionStep) (after : ScreenObservation) (reason : ReplanReason)
      (message : String) (q : QaStep) (s : Loop)
      → Ensured step s (retry_or_fail ports json config left step after reason message q s)
  unfolding retry_or_fail fail_old result_of
  retry-Ensured zero step after reason message q s =
      replan_or-Ensured s step after reason message _ λ t h. Ensures-pure _ (refl, h.plan)
  retry-Ensured (suc left) step after reason message q s = Ensures-pure _ (same s)

  business-Ensured :
      (left : ℕ) (step : ExecutionStep) (b a : Option Snapshot) (d : Acted) (post : AssertionResult)
      (s : Loop)
      → Ensured step s (check_business ports json config left step b a d post s)
  unfolding check_business
  business-Ensured left step b a d post s = Ensures-bind _ _ λ business.
      Ensures-if business.ok _ _
        (λ _. Ensures-bind _ _ λ expected. repeat-Ensured step d.after b a step.repeat_until _)
        (λ _. Ensures-bind _ _ λ expected. retry-Ensured left step d.after _ _ _ _)

  recovery-Ensured :
      (left : ℕ) (step : ExecutionStep) (b : Option Snapshot) (d : Acted) (post : AssertionResult)
      (r : Recovered) (s : Loop)
      → Ensured step s (after_recovery ports json config left step b d post r s)
  unfolding after_recovery
  recovery-Ensured left step b d post r s =
      Ensures-if (not r.ok && continues step.on_failure) _ _
        (λ _.
          Ensures-pure _ (record { plan = refl; replans = refl; index = refl; iterations = refl }))
        λ _. Ensures-bind _ _ λ validation. Ensures-bind _ _ λ expected.
          Ensures-if validation.ok _ _
            (λ _.
              Ensures-pure _
                (record { plan = refl; replans = refl; index = refl; iterations = refl }))
            (λ _. retry-Ensured left step d.after _ _ _ _)

  post-Ensured :
      (left : ℕ) (step : ExecutionStep) (b : Option Snapshot) (d : Acted) (s : Loop)
      → Ensured step s (check_post ports json config left step b d s)
  unfolding check_post
  post-Ensured left step b d s = Ensures-bind _ _ λ after_state. Ensures-bind _ _ λ post.
      Ensures-if (d.exec.ok && post.ok) _ _
        (λ _. business-Ensured left step b (some after_state) d post _)
        (λ _.
          Ensures-bind _ _ λ expected.
            Ensures-bind _ _ λ recovered. recovery-Ensured left step b d post recovered _)

  perform-Ensured :
      (left : ℕ) (step : ExecutionStep) (b : Option Snapshot) (action : QaAction) (s : Loop)
      → Ensured step s (perform ports json config left step b action s)
  unfolding perform
  perform-Ensured left step b action s = Ensures-bind _ _ λ exec. Ensures-bind _ _ λ _.
      Ensures-bind _ _ λ _. Ensures-bind _ _ λ q. Ensures-bind _ _ λ after.
        Ensures-bind _ _ λ audit.
          post-Ensured left step b
            (record { action = action; exec = exec; quiescence = q; after = after }) _

  guard-Ensured :
      (left : ℕ) (step : ExecutionStep) (before : ScreenObservation) (b : Option Snapshot)
      (action : QaAction) (s : Loop)
      → Ensured step s (guard ports json config left step before b action s)
  unfolding guard fail_new fail_old result_of
  guard-Ensured left step before b action s =
      Ensures-option
        (refusal (Policy.validate action config s.attempts)
          (Policy.validate_destructive_text (step.description <> " " <> action.reason) config))
        _ _ (λ _. perform-Ensured left step b action s) (λ message _. Ensures-pure _ (refl, refl))

  provider-Ensured :
      (left : ℕ) (step : ExecutionStep) (before : ScreenObservation) (b : Option Snapshot)
      (message : String) (s : Loop)
      → Ensured step s (ask_provider ports json config left step before b message s)
  unfolding ask_provider
  provider-Ensured left step before b message s = Ensures-bind _ _ λ decided.
      Ensures-option decided _ _
        (λ _. replan_or-Ensured s step before _ message _ (λ t _. Ensures-raise))
        (λ action _. guard-Ensured left step before b action _)

  otherwise-Ensured :
      (left : ℕ) (step : ExecutionStep) (before : ScreenObservation) (b : Option Snapshot)
      (message : String) (s : Loop)
      → Ensured step s (resolve_otherwise ports json config left step before b message s)
  unfolding resolve_otherwise
  otherwise-Ensured left step before b message s = Ensures-bind _ _ λ audit.
      Ensures-bind _ _ λ available.
        Ensures-if available.available _ _
          (λ _. Ensures-bind _ _ λ again.
            Ensures-bind _ _ λ action. guard-Ensured left step available.observation b action _)
          (λ _. provider-Ensured left step before b message _)

  resolve-Ensured :
      (left : ℕ) (step : ExecutionStep) (before : ScreenObservation) (b : Option Snapshot)
      (s : Loop)
      → Ensured step s (resolve ports json config left step before b s)
  unfolding resolve
  resolve-Ensured left step before b s = Ensures-bind _ _ λ first.
      Ensures-option first.action _ _ (λ _. otherwise-Ensured left step before b first.message _)
        (λ action _. guard-Ensured left step before b action _)

  prepare-Ensured :
      (click : Bool) (left : ℕ) (step : ExecutionStep) (before : ScreenObservation)
      (b : Option Snapshot) (s : Loop)
      → Ensured step s (prepare ports json config click left step before b s)
  unfolding prepare
  prepare-Ensured true left step before b s =
      Ensures-bind _ _ λ available. resolve-Ensured left step _ b _
  prepare-Ensured false left step before b s = resolve-Ensured left step before b s

  refuse-Ensured :
      (s t : Loop) (step : ExecutionStep) (before : ScreenObservation) (pre : AssertionResult)
      → Same s.current_plan s.replans s.step_index s.iterations t
      → Ensured step s (refuse ports json config step before pre t)
  unfolding refuse fail_new fail_old result_of
  refuse-Ensured s t step before pre h = Ensures-pure _ (refl, h.plan)

  unprepared-Ensured :
      (step : ExecutionStep) (before : ScreenObservation) (pre : AssertionResult) (s : Loop)
      → Ensured step s (unprepared ports json config step before pre s)
  unfolding unprepared
  unprepared-Ensured step before pre s =
      Ensures-if (continues step.on_failure) _ _
        (λ _.
          Ensures-pure _ (record { plan = refl; replans = refl; index = refl; iterations = refl }))
        (λ _.
          replan_or-Ensured s step before _ _ (refuse ports json config step before pre)
            (λ t h. refuse-Ensured s t step before pre h))

  pub attempt-Ensured :
      (left : ℕ) (step : ExecutionStep) (s : Loop)
      → Ensures
          (Effected json step s.current_plan s.replans s.step_index s.iterations)
          (attempt ports json config left step s)
  unfolding attempt
  attempt-Ensured left step s = Ensures-bind _ _ λ before. Ensures-bind _ _ λ before_state.
      Ensures-bind _ _ λ pre.
        Ensures-if pre.ok _ _
          (λ _. Ensures-bind _ _ λ action. prepare-Ensured _ left step before _ _)
          (λ _. unprepared-Ensured step before pre _)
