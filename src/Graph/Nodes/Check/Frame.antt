-- ===== src/Graph/Nodes/Check/Frame.antt =====
-- What the judging nodes leave alone.
use qa_agent.Prelude.{ℕ, ◌++◌, refl, ◌&&◌, Option, none, some, ltb, or_else}
use qa_agent.Domain.Plan.{ExecutionStep, PlanCondition}
use qa_agent.Domain.Config.{RunConfig}
use qa_agent.Domain.Observation.{ScreenObservation}
use qa_agent.Domain.Run.{AssertionResult, Phase}
use qa_agent.Runner.{condition_evaluations}
use qa_agent.Effect.Ensures.{Ensures, Ensures-pure, Ensures-if, Ensures-bind, Ensures-map}
use qa_agent.Ports.{Ports}
use qa_agent.Recovery.{Recovered}
use qa_agent.Graph.Frame.{Frame, kept, stopped}
use qa_agent.Graph.State.{State}
use qa_agent.Graph.Nodes.Check.{
  continues, close_step, check_again, after_recovery, evaluated, recover_step, postcheck_node,
  judged, assertions_node, repeat_or_stop, repeat_step, repeat_until_node,
}

module _ (ports : Ports) where
  open ports use {World, Snapshot}

  close-Frame :
      (s : State Snapshot) (step : ExecutionStep) (after : ScreenObservation) (v : AssertionResult)
      → Ensures (Frame s) (close_step ports s step after v)
  unfolding close_step
  close-Frame s step after v =
      Ensures-bind _ _
        λ action. Ensures-bind _ _ λ expected. Ensures-pure _ (kept refl refl refl refl)

  again-Frame :
      (s : State Snapshot) (step : ExecutionStep) (after : ScreenObservation)
      → Ensures (Frame s) (check_again ports s step after)
  unfolding check_again
  again-Frame s step after = Ensures-bind _ _ λ obs.
      Ensures-bind _ _
        λ snapshot. Ensures-bind _ _ λ validation. close-Frame s step after validation

  after_recovery-Frame :
      (s : State Snapshot) (step : ExecutionStep) (after : ScreenObservation)
      (post : AssertionResult) (r : Recovered)
      → Ensures (Frame s) (after_recovery ports s step after post r)
  unfolding after_recovery
  after_recovery-Frame s step after post r =
      Ensures-if r.ok _ _ (λ _. again-Frame s step after)
        (λ _.
          Ensures-if (continues step.on_failure) _ _
            (λ _. Ensures-pure _ (kept refl refl refl refl)) (λ _. close-Frame s step after post))

  module _ (config : RunConfig) where
    recover-Frame :
        (s : State Snapshot) (step : ExecutionStep) (after : ScreenObservation)
        (post : AssertionResult)
        → Ensures (Frame s) (recover_step ports config s step after post)
    unfolding recover_step
    recover-Frame s step after post = Ensures-bind _ _ λ expected. Ensures-bind _ _ λ recovered.
        Ensures-map _
          (λ t f. record {
            same_plan = f.same_plan;
            same_replans = f.same_replans;
            outcome = f.outcome;
          })
          (after_recovery-Frame (record s { attempts = s.attempts ++ recovered.attempts }) step
            after post recovered)

    pub postcheck-Frame : (s : State Snapshot) → Ensures (Frame s) (postcheck_node ports config s)
    unfolding postcheck_node evaluated
    postcheck-Frame s = Ensures-bind _ _ λ step. Ensures-bind _ _ λ exec. Ensures-bind _ _ λ after.
        Ensures-bind _ _ λ post.
          Ensures-if (exec.ok && post.ok) _ _ (λ _. Ensures-pure _ (kept refl refl refl refl))
            (λ _.
              Ensures-map _
                (λ t f. record {
                  same_plan = f.same_plan;
                  same_replans = f.same_replans;
                  outcome = f.outcome;
                })
                (recover-Frame
                  (evaluated ports s
                    (condition_evaluations step Phase.postcondition step.postconditions post))
                  step after post))

  pub assertions-Frame : (s : State Snapshot) → Ensures (Frame s) (assertions_node ports s)
  unfolding assertions_node evaluated judged
  assertions-Frame s = Ensures-bind _ _ λ step. Ensures-bind _ _ λ after.
      Ensures-bind _ _ λ business. Ensures-bind _ _ λ action.
        Ensures-if business.ok _ _
          (λ _.
            Ensures-bind _ _
              λ expected. Ensures-bind _ _ λ validation. Ensures-pure _ (kept refl refl refl refl))
          (λ _. Ensures-bind _ _ λ expected. Ensures-pure _ (kept refl refl refl refl))

  repeat_or_stop-Frame :
      (s : State Snapshot) (step : ExecutionStep) (after : ScreenObservation) (n : ℕ)
      → Ensures (Frame s) (repeat_or_stop ports s step after n)
  unfolding repeat_or_stop
  repeat_or_stop-Frame s step after n =
      Ensures-if (ltb (or_else step.max_iterations 10) n) _ _
        (λ _. Ensures-pure _ (stopped refl refl refl refl))
        (λ _. Ensures-pure _ (kept refl refl refl refl))

  repeat_step-Frame :
      (s : State Snapshot) (step : ExecutionStep) (condition : Option PlanCondition)
      → Ensures (Frame s) (repeat_step ports s step condition)
  unfolding repeat_step
  repeat_step-Frame s step none = Ensures-pure _ (kept refl refl refl refl)
  repeat_step-Frame s step (some condition) = Ensures-bind _ _ λ after. Ensures-bind _ _ λ repeated.
      Ensures-if repeated.ok _ _ (λ _. Ensures-pure _ (kept refl refl refl refl))
        (λ _. repeat_or_stop-Frame s step after _)

  pub repeat_until-Frame : (s : State Snapshot) → Ensures (Frame s) (repeat_until_node ports s)
  unfolding repeat_until_node
  repeat_until-Frame s = Ensures-bind _ _ λ step. repeat_step-Frame s step step.repeat_until
