-- ===== src/Executor/Termination.antt =====
-- The loop over the steps ends: a turn that does not end it either uses up one of the replans that are
-- left, or goes on to the next step, or uses up one of the iterations of the step.
use qa_agent.Prelude.{
  ℕ, zero, suc, ◌+◌, ◌-◌, ◌<◌, ◌≤◌, ◌≡◌, refl, sym, ap, subst, inl, inr, String, List, ◌∷◌, Option,
  none, some, get_elem?, or_else, length, arith, Option-cases, get_elem?-lt, eq_iff,
}
use qa_agent.Domain.Plan.{ExecutionStep, ExecutionPlan}
use qa_agent.Domain.Config.{RunConfig}
use qa_agent.Effect.{Eff, Outcome, done, threw, interrupted, ◌>>=◌, pure}
use qa_agent.Plan.Schema.{Stringify}
use qa_agent.Ports.{Ports}
use qa_agent.Runner.Laws.{IsNextPlan}
use qa_agent.Graph.State.{iteration_of}
use qa_agent.Executor.Result.{PlanExecutionResult}
use qa_agent.Executor.Attempt.{Loop}
use qa_agent.Executor.Attempt.Frame.{Same, next_iteration}
use qa_agent.Executor.Ends.{run_attempts-Turned}
use qa_agent.Executor.{StepEnd, start, run_attempts, check_final, attempts_of, run_steps, execute}

-- The iterations that a step has left.
abbrev spare : ExecutionStep → List (String × ℕ) → ℕ
spare step its = (or_else step.max_iterations 10 + 1) - next_iteration step its

abbrev spare_at : Option ExecutionStep → List (String × ℕ) → ℕ
spare_at none its = 0
spare_at (some step) its = spare step its

-- The three bounds on what is left of an execution.
abbrev replans_left : Loop → ℕ
replans_left s = s.current_plan.runtime.max_replans_per_scenario - s.replans

abbrev steps_left : Loop → ℕ
steps_left s = length s.current_plan.steps - s.step_index

abbrev iterations_left : Loop → ℕ
iterations_left s = spare_at (get_elem? s.current_plan.steps s.step_index) s.iterations

iteration_of-next :
    (step : ExecutionStep) (n : ℕ) (its : List (String × ℕ))
    → next_iteration step ((step.id, n) ∷ its) ≡ n + 1
unfolding iteration_of
iteration_of-next step n its = rw ((eq_iff step.id step.id).1 refl) refl

spare-next :
    (step : ExecutionStep) (its : List (String × ℕ))
    → next_iteration step its ≤ or_else step.max_iterations 10
    → spare step ((step.id, next_iteration step its) ∷ its) < spare step its
spare-next step its h = omega (arith, h, iteration_of-next step (next_iteration step its) its)

module _ (ports : Ports) (json : Stringify) (config : RunConfig) where
  open ports use {World, Snapshot}

  -- A result, or a call that throws or pauses: not the end of the turns.
  abbrev pub Decides : Outcome World (Option PlanExecutionResult) → Type 0
  Decides (done none w) = ⊥
  Decides _ = Unit

  -- Some number of turns is enough.
  abbrev pub Terminates : ExecutionPlan → Loop → World → Type 0
  Terminates plan s w = (turns : ℕ) × Decides (run_steps ports json config turns plan s w)

  ended-Decides :
      (m : Eff World PlanExecutionResult) (w : World) → Decides ((m >>= λ r. pure (some r)) w)
  unfolding ◌>>=◌ pure
  ended-Decides m w = go (m w)
    where
      go : (o : Outcome World PlanExecutionResult) → Decides (((λ _. o) >>= λ r. pure (some r)) w)
      go (done r v) = tt
      go (threw v) = tt
      go (interrupted v) = tt

  abbrev attempts : ExecutionStep → Loop → Eff World StepEnd
  attempts step s = run_attempts ports json config (attempts_of ports json config step s) step s

  -- What a turn does after the attempts at its step.
  follow : ℕ → ExecutionPlan → StepEnd → Eff World (Option PlanExecutionResult)
  follow k plan e = elim e [
    | StepEnd.advances t ↦
        run_steps ports json config k plan (record t { step_index = t.step_index + 1 })
    | StepEnd.repeats t ↦ run_steps ports json config k plan t
    | StepEnd.patches t ↦ run_steps ports json config k plan t
    | StepEnd.returns r ↦ pure (some r)
  ]

  -- A turn, from the step that is found.
  abbrev turn :
      ℕ → ExecutionPlan → Loop → Option ExecutionStep → Eff World (Option PlanExecutionResult)
  turn k plan s found = elim found [
    | none ↦ check_final ports json config plan s >>= λ r. pure (some r)
    | some step ↦ attempts step s >>= follow k plan
  ]

  run_steps-suc :
      (k : ℕ) (plan : ExecutionPlan) (s : Loop) (w : World) {found : Option ExecutionStep}
      → get_elem? s.current_plan.steps s.step_index ≡ found
      → run_steps ports json config (suc k) plan s w ≡ turn k plan s found w
  unfolding run_steps follow attempts_of
  run_steps-suc k plan s w e = ap (λ x. turn k plan s x w) e

  final-Terminates :
      (plan : ExecutionPlan) (s : Loop) (w : World)
      → get_elem? s.current_plan.steps s.step_index ≡ none
      → Terminates plan s w
  final-Terminates plan s w e = (
    1,
    subst Decides (sym (run_steps-suc 0 plan s w e))
        (ended-Decides (check_final ports json config plan s) w),
  )

  -- A turn, from what follows each way that it may end.
  turn-Terminates :
      (plan : ExecutionPlan) (s : Loop) (w : World) (step : ExecutionStep)
      → get_elem? s.current_plan.steps s.step_index ≡ some step
      → ((t : Loop) (v : World)
          → Same s.current_plan s.replans s.step_index s.iterations t
          → Terminates plan (record t { step_index = t.step_index + 1 }) v)
      → ((t : Loop) (v : World)
          → Same s.current_plan s.replans s.step_index
              ((step.id, next_iteration step s.iterations) ∷ s.iterations)
              t
          → next_iteration step s.iterations ≤ or_else step.max_iterations 10
          → Terminates plan t v)
      → ((t : Loop) (v : World)
          → t.replans ≡ s.replans + 1
          → IsNextPlan json s.current_plan s.replans t.current_plan
          → Terminates plan t v)
      → Terminates plan s w
  unfolding ◌>>=◌ pure follow
  turn-Terminates plan s w step found advance again patch = go (attempts step s w) refl
    where
      from :
          (k : ℕ) {o : Outcome World StepEnd}
          → attempts step s w ≡ o
          → Decides (((λ _. o) >>= follow k plan) w)
          → Terminates plan s w
      from k at h = (
        suc k,
        subst Decides (sym (run_steps-suc k plan s w found))
            (subst (λ x. Decides (((λ _. x) >>= follow k plan) w)) (sym at) h),
      )

      go : (o : Outcome World StepEnd) → attempts step s w ≡ o → Terminates plan s w
      go (done (StepEnd.advances t) v) at =
          let (k, h) = advance t v ((run_attempts-Turned ports json config _ step s).at w _ v at) in
          from k at h
      go (done (StepEnd.repeats t) v) at =
          let (same, within) = (run_attempts-Turned ports json config _ step s).at w _ v at in
          let (k, h) = again t v same within in from k at h
      go (done (StepEnd.patches t) v) at =
          let (_, one_more, next) = (run_attempts-Turned ports json config _ step s).at w _ v at in
          let (k, h) = patch t v one_more next in from k at h
      go (done (StepEnd.returns r) v) at = from 0 at tt
      go (threw v) at = from 0 at tt
      go (interrupted v) at = from 0 at tt

  loop-Terminates :
      (a b c : ℕ) (plan : ExecutionPlan) (s : Loop) (w : World)
      → replans_left s < a
      → steps_left s < b
      → iterations_left s < c
      → Terminates plan s w
  loop-Terminates zero b c plan s w ha hb hc = absurd (omega arith)
  loop-Terminates (suc a) zero c plan s w ha hb hc = absurd (omega arith)
  loop-Terminates (suc a) (suc b) zero plan s w ha hb hc = absurd (omega arith)
  loop-Terminates (suc a) (suc b) (suc c) plan s w ha hb hc =
      elim (Option-cases (get_elem? s.current_plan.steps s.step_index)) [
        | inl e ↦ final-Terminates plan s w e
        | inr (step, e) ↦
            turn-Terminates plan s w step e
              (λ t v same.
                loop-Terminates (suc a) b
                  (suc (iterations_left (record t { step_index = t.step_index + 1 }))) plan _ v
                  (rw (same.plan, same.replans) ha)
                  (rw (same.plan, same.index) ground
                    (arith, hb, get_elem?-lt s.current_plan.steps s.step_index e))
                  (omega arith))
              (λ t v same within.
                loop-Terminates (suc a) (suc b) c plan t v (rw (same.plan, same.replans) ha)
                  (rw (same.plan, same.index) hb)
                  (rw (same.plan, same.index, same.iterations, e) omega
                    (
                      arith,
                      spare-next step s.iterations within,
                      hc,
                      ap (λ x. spare_at x s.iterations) e,
                    )))
              (λ t v one_more next.
                loop-Terminates a (suc (steps_left t)) (suc (iterations_left t)) plan t v
                  (ground (
                    arith,
                    ha,
                    one_more,
                    next.budget,
                    ap (λ q. q.runtime.max_replans_per_scenario) next.same,
                  ))
                  (omega arith) (omega arith))
      ]

  -- For every plan and every behaviour of the world, some number of turns of the loop is enough: with
  -- it the execution returns a result, or one of its calls throws or pauses.
  pub execute-Terminates :
      (plan : ExecutionPlan) (w : World)
      → (turns : ℕ) × Decides (execute ports json config turns plan w)
  unfolding execute
  execute-Terminates plan w =
      loop-Terminates (suc (replans_left (start plan))) (suc (steps_left (start plan)))
        (suc (iterations_left (start plan))) plan (start plan) w (omega arith) (omega arith)
        (omega arith)
