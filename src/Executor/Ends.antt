-- ===== src/Executor/Ends.antt =====
-- How an execution ends: what its result says, and that it ends at all.
use qa_agent.Prelude.{
  ℕ, zero, suc, ◌+◌, ◌≤◌, ◌≡◌, refl, subst, String, false, List, ◌∷◌, Option, none, some, get_elem?,
  or_else, arith,
}
use qa_agent.Domain.Plan.{ExecutionStep, ExecutionPlan}
use qa_agent.Domain.Config.{RunConfig}
use qa_agent.Effect.{Eff, done, pure}
use qa_agent.Effect.Ensures.{Ensures, Ensures-pure, Ensures-bind_with, Ensures-map}
use qa_agent.Effect.Leaves.{
  Leaves, Leaves-pure, Leaves-bind, Leaves-bind_with, Leaves-then, Leaves-option,
}
use qa_agent.Runner.Final.{final-Leaves}
use qa_agent.Plan.Schema.{Stringify}
use qa_agent.Ports.{Ports}
use qa_agent.Runner.Laws.{IsNextPlan}
use qa_agent.Runner.Versions.{IsVersionOf, IsVersionOf-start, IsVersionOf-next, IsVerdict}
use qa_agent.Executor.Result.{PlanExecutionResult}
use qa_agent.Executor.Attempt.{Loop, AttemptEnd, result_of, fail_new, fail_old}
use qa_agent.Executor.Attempt.Frame.{Same, Effected, next_iteration, attempt-Ensured}
use qa_agent.Executor.{StepEnd, start, exhausted, run_attempts, check_final, run_steps, execute}

-- What each end of the attempts at a step says, from the values that the variables had before.
abbrev pub Turned :
    Stringify → ExecutionStep → ExecutionPlan → ℕ → ℕ → List (String × ℕ) → StepEnd → Type 0
Turned json step p n i its (StepEnd.advances t) = Same p n i its t
Turned json step p n i its (StepEnd.repeats t) =
    Same p n i ((step.id, next_iteration step its) ∷ its) t
    × (next_iteration step its ≤ or_else step.max_iterations 10)
Turned json step p n i its (StepEnd.patches t) =
    (t.step_index ≡ i) × (t.replans ≡ n + 1) × IsNextPlan json p n t.current_plan
Turned json step p n i its (StepEnd.returns r) = (r.ok ≡ false) × (r.final_plan ≡ p)

module _ (json : Stringify) (step : ExecutionStep) {p : ExecutionPlan} {n i : ℕ}
    {its : List (String × ℕ)} {t : Loop} where
  Turned-from :
      Same p n i its t
      → (e : StepEnd) → Turned json step t.current_plan t.replans t.step_index t.iterations e
      → Turned json step p n i its e
  Turned-from h e k =
      subst (λ x. Turned json step x n i its e) h.plan
        (subst (λ x. Turned json step t.current_plan x i its e) h.replans
          (subst (λ x. Turned json step t.current_plan t.replans x its e) h.index
            (subst (λ x. Turned json step t.current_plan t.replans t.step_index x e) h.iterations
              k)))

module _ (ports : Ports) (json : Stringify) (config : RunConfig) where
  open ports use {World, Snapshot}

  ended-Turned :
      (step : ExecutionStep) (s : Loop) (again : Loop → Eff World StepEnd)
      → ((t : Loop)
          → Ensures (Turned json step t.current_plan t.replans t.step_index t.iterations) (again t))
      → (e : AttemptEnd) → Effected json step s.current_plan s.replans s.step_index s.iterations e
      → Ensures {W = World}
          (Turned json step s.current_plan s.replans s.step_index s.iterations)
          (elim e [
            | AttemptEnd.passed t ↦ pure (StepEnd.advances t)
            | AttemptEnd.repeated t ↦ pure (StepEnd.repeats t)
            | AttemptEnd.patched t ↦ pure (StepEnd.patches t)
            | AttemptEnd.failed t ↦ again t
            | AttemptEnd.ended r ↦ pure (StepEnd.returns r)
          ])
  ended-Turned step s again h (AttemptEnd.passed t) k = Ensures-pure _ k
  ended-Turned step s again h (AttemptEnd.repeated t) k = Ensures-pure _ k
  ended-Turned step s again h (AttemptEnd.patched t) k = Ensures-pure _ k
  ended-Turned step s again h (AttemptEnd.failed t) k =
      Ensures-map _ (Turned-from json step k) (h t)
  ended-Turned step s again h (AttemptEnd.ended r) k = Ensures-pure _ k

  pub run_attempts-Turned :
      (left : ℕ) (step : ExecutionStep) (s : Loop)
      → Ensures
          (Turned json step s.current_plan s.replans s.step_index s.iterations)
          (run_attempts ports json config left step s)
  unfolding run_attempts exhausted result_of
  run_attempts-Turned zero step s = Ensures-pure _ (refl, refl)
  run_attempts-Turned (suc left) step s =
      Ensures-bind_with _ _ (attempt-Ensured ports json config left step s) (
        ended-Turned step s (run_attempts ports json config left step)
          (λ t. run_attempts-Turned left step t))

  -- What is known of an answer of the loop.
  abbrev Answered : ExecutionPlan → Option PlanExecutionResult → World → Type 0
  Answered plan none w = Unit
  Answered plan (some r) w = IsVerdict ports plan r w

  check_final-IsVerdict :
      (plan : ExecutionPlan) (s : Loop)
      → IsVersionOf plan s.current_plan s.replans
      → Leaves (IsVerdict ports plan) (check_final ports json config plan s)
  unfolding check_final fail_new fail_old result_of
  check_final-IsVerdict plan s v =
      final-Leaves ports plan.assertions _ _
        (λ w passed. record { replans = s.replans; version = v; passed = λ _. passed })
        (λ obs r. Leaves-bind _ _ λ expected.
          Leaves-pure _ (λ w. record { replans = s.replans; version = v; passed = λ e. cc }))

  -- The state with which the next turn begins.
  next-Answered :
      (plan : ExecutionPlan) (step : ExecutionStep) (s : Loop)
      (again : Loop → Eff World (Option PlanExecutionResult))
      → IsVersionOf plan s.current_plan s.replans
      → ((t : Loop) → IsVersionOf plan t.current_plan t.replans → Leaves (Answered plan) (again t))
      → (e : StepEnd) → Turned json step s.current_plan s.replans s.step_index s.iterations e
      → Leaves (Answered plan) (elim e [
        | StepEnd.advances t ↦ again (record t { step_index = t.step_index + 1 })
        | StepEnd.repeats t ↦ again t
        | StepEnd.patches t ↦ again t
        | StepEnd.returns r ↦ pure (some r)
      ])
  next-Answered plan step s again v h (StepEnd.advances t) k = h _ (rw (k.plan, k.replans) v)
  next-Answered plan step s again v h (StepEnd.repeats t) k = h t (rw (k.0.plan, k.0.replans) v)
  next-Answered plan step s again v h (StepEnd.patches t) (_, one_more, next) =
      h t (rw one_more (IsVersionOf-next plan json s.current_plan t.current_plan s.replans v next))
  next-Answered plan step s again v h (StepEnd.returns r) (no_success, kept) = Leaves-pure _ (λ w.
      record {
        replans = s.replans;
        version = rw kept v;
        passed = λ e. ground (arith, no_success, e);
      })

  run_steps-Answered :
      (turns : ℕ) (plan : ExecutionPlan) (s : Loop)
      → IsVersionOf plan s.current_plan s.replans
      → Leaves (Answered plan) (run_steps ports json config turns plan s)
  unfolding run_steps
  run_steps-Answered zero plan s v = Leaves-pure _ (λ w. tt)
  run_steps-Answered (suc turns) plan s v =
      Leaves-option (get_elem? s.current_plan.steps s.step_index) _ _
        (Leaves-then _ _ (check_final-IsVerdict plan s v))
        λ step _. Leaves-bind_with _ _ (run_attempts-Turned _ step s) (
          next-Answered plan step s (run_steps ports json config turns plan) v
            (run_steps-Answered turns plan))

  -- A result of the executor is a verdict on the plan: the plan that it returns is the given one with
  -- other steps, after as many replans as its version says and the plan allows; and a result that is ok
  -- is returned in the very world in which a check of the final assertions of the given plan
  -- succeeded, on a page that was observed, and a state that was read from it, right before that check.
  pub execute-IsVerdict :
      (turns : ℕ) (plan : ExecutionPlan) (w : World) (r : PlanExecutionResult) (w' : World)
      → execute ports json config turns plan w ≡ done (some r) w'
      → IsVerdict ports plan r w'
  unfolding execute
  execute-IsVerdict turns plan w r w' e =
      (run_steps-Answered turns plan (start plan) (IsVersionOf-start plan json)).at w (some r) w' e
