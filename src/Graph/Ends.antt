-- ===== src/Graph/Ends.antt =====
-- How a run of the graph, and an execution with its pauses, may end.
use qa_agent.Prelude.{
  ℕ, zero, suc, ◌≡◌, refl, true, false, Bool, Option, none, some, subst, if◌then◌else◌,
}
use qa_agent.Domain.Config.{RunConfig}
use qa_agent.Domain.Plan.{ExecutionPlan}
use qa_agent.Effect.{Eff, Outcome, done, threw, interrupted}
use qa_agent.Plan.Schema.{Stringify}
use qa_agent.Ports.{Ports}
use qa_agent.Graph.State.{State, initial}
use qa_agent.Graph.Nodes.{Node}
use qa_agent.Graph.Route.{Next, goto, end, unless_done}
use qa_agent.Graph.Run.{
  ApprovalRequest, Ending, finished, paused, failed, limit, Executed, returned, thrown, moved,
  stopped, asked, run, resume, rejected, request, settle_pauses, execute_plan, step, stepped,
  superstep, invoke,
}
use qa_agent.Graph.Result.{state_to_result}
use qa_agent.Runner.Final.{FinalPassed}
use qa_agent.Runner.Versions.{IsVersionOf, IsVersionOf-start}
use qa_agent.Graph.Verdict.{Going, Closed, Stopped-Closed, Going-end, superstep-SoundAt}

module _ (ports : Ports) (plan : ExecutionPlan) (json : Stringify) (config : RunConfig) where
  open ports use {World, Snapshot}

  -- What is known at the end of one call of `graph.invoke`.
  abbrev Concluded : Ending Snapshot World → Type 0
  Concluded (finished s w) = Closed ports plan json config s w
  Concluded (paused s w) = Going ports plan json config s
  Concluded _ = Unit

  run-Concluded :
      (fuel : ℕ) (n : Node) (s : State Snapshot) (w : World)
      → Going ports plan json config s
      → Concluded (run ports json config fuel n s w)
  unfolding run step stepped
  run-Concluded zero n s w h = tt
  run-Concluded (suc fuel) n s w h =
      go (λ m t v g. run-Concluded fuel m t v g) (superstep ports json config n s w) refl
    where
      go :
          ((m : Node) (t : State Snapshot) (v : World)
            → Going ports plan json config t
            → Concluded (run ports json config fuel m t v))
          → (o : Outcome World (State Snapshot × Next)) → superstep ports json config n s w ≡ o
          → Concluded (elim (stepped ports json config o) [
            | moved t (goto m) v ↦ run ports json config fuel m t v
            | moved t end v ↦ finished t v
            | stopped v ↦ failed s v
            | asked v ↦ paused s v
          ])
      go rec (done (t, goto m) v) at =
          rec m t v ((superstep-SoundAt ports plan json config n s h).at w (t, goto m) v at)
      go rec (done (t, end) v) at =
          (superstep-SoundAt ports plan json config n s h).at w (t, end) v at
      go rec (threw v) at = tt
      go rec (interrupted v) at = h

  invoke-Concluded : (w : World) → Concluded (invoke ports json config plan w)
  unfolding invoke initial
  invoke-Concluded w =
      run-Concluded 100 Node.observe (initial plan) w
        (record { version = IsVersionOf-start plan json; matches = refl })

  resume-Concluded :
      (s : State Snapshot) (w : World)
      → Going ports plan json config s
      → Concluded (resume ports json config s w)
  unfolding resume unless_done
  resume-Concluded s w h = go s.done refl
    where
      go :
          (b : Bool)
          → s.done ≡ b
          → Concluded (elim (if b then end else goto Node.execute) [
            | goto m ↦ run ports json config 99 m s w
            | end ↦ finished s w
          ])
      go true d = Stopped-Closed ports plan json config s w (Going-end ports plan json config s h d)
      go false d = run-Concluded 99 Node.execute s w h

  module _ (approve : ApprovalRequest → Eff World Bool) where
    -- What is known where an execution returns.
    abbrev Returned : Executed Snapshot World → Type 0
    Returned (returned s w) = Closed ports plan json config s w
    Returned _ = Unit

    settle_pauses-Returned :
        (fuel : ℕ) (e : Ending Snapshot World)
        → Concluded e
        → Returned (settle_pauses ports json config approve fuel e)
    unfolding settle_pauses rejected
    settle_pauses-Returned fuel (finished s w) h = h
    settle_pauses-Returned fuel (failed s w) h = tt
    settle_pauses-Returned fuel (limit s w) h = tt
    settle_pauses-Returned zero (paused s w) h = tt
    settle_pauses-Returned (suc fuel) (paused s w) h =
        go (λ v. settle_pauses-Returned fuel _ (resume-Concluded s v h))
          (request ports json config s)
      where
        answer :
            ((v : World)
              → Returned
                  (settle_pauses ports json config approve fuel (resume ports json config s v)))
            → (q : ApprovalRequest) (o : Outcome World Bool)
            → Returned (elim o [
              | done true v ↦
                  settle_pauses ports json config approve fuel (resume ports json config s v)
              | done false v ↦ returned (rejected ports json config s q.reason) v
              | threw v ↦ thrown s v
              | interrupted v ↦ thrown s v
            ])
        answer k q (done true v) = k v
        answer k q (done false v) = record { version = h.version; verdict = λ e. cc }
        answer k q (threw v) = tt
        answer k q (interrupted v) = tt

        go :
            ((v : World)
              → Returned
                  (settle_pauses ports json config approve fuel (resume ports json config s v)))
            → (r : Option ApprovalRequest)
            → Returned (elim r [
              | none ↦ thrown s w
              | some q ↦ elim (approve q w) [
                | done true v ↦
                    settle_pauses ports json config approve fuel (resume ports json config s v)
                | done false v ↦ returned (rejected ports json config s q.reason) v
                | threw v ↦ thrown s v
                | interrupted v ↦ thrown s v
              ]
            ])
        go k none = tt
        go k (some q) = answer k q (approve q w)

    execute_plan-Returned :
        (pauses : ℕ) (w : World) → Returned (execute_plan ports json config approve pauses plan w)
    unfolding execute_plan
    execute_plan-Returned pauses w = settle_pauses-Returned pauses _ (invoke-Concluded w)

    -- Where the executor returns, however often it asked the approver, the plan that it returns is the
    -- given one with other steps, its version counts the replans, and these are within the budget of
    -- the plan, without any in the mode PLAN_AND_EXECUTE; and a result that is ok is returned in the
    -- very world in which a check of the final assertions of the given plan succeeded, on a page that
    -- was observed, and on a state that was read from it, right before that check.
    pub execute_plan_verdict :
        (pauses : ℕ) (w : World) (s : State Snapshot) (w' : World)
        → execute_plan ports json config approve pauses plan w ≡ returned s w'
        → IsVersionOf plan (state_to_result s).final_plan s.replans
          × ((state_to_result s).ok ≡ true → FinalPassed ports plan.assertions w')
    execute_plan_verdict pauses w s w' e =
        let closed : Closed ports plan json config s w' =
          subst Returned e (execute_plan-Returned pauses w) in
        (closed.version, closed.verdict)
