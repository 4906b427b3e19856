-- ===== src/Graph/Nodes/Settle/Frame.antt =====
-- What the closing nodes do to the plan and to the outcome.
use qa_agent.Prelude.{◌+◌, ◌≡◌, refl, ◌⊎◌, inl, inr, String, true, false, ◌||◌}
use qa_agent.Domain.Config.{RunConfig}
use qa_agent.Domain.Observation.{ScreenObservation}
use qa_agent.Domain.Run.{AssertionResult}
use qa_agent.Effect.Ensures.{Ensures, Ensures-pure, Ensures-if, Ensures-bind, Ensures-bind_with}
use qa_agent.Plan.Schema.{Stringify}
use qa_agent.Ports.{Ports}
use qa_agent.Runner.{Replan}
use qa_agent.Runner.Final.{FinalPassed, final-Leaves}
use qa_agent.Effect.Leaves.{Leaves, Leaves-pure, Leaves-bind}
use qa_agent.Runner.Laws.{IsNextPlan, IsReplan, try_replan-IsReplan}
use qa_agent.Graph.Frame.{Frame, kept}
use qa_agent.Graph.State.{State}
use qa_agent.Graph.Nodes.Settle.{
  replanned, replan_node, advance_node, final_failure, final_assertions_node,
}

-- A replan either ends the run or sets the next version of the plan.
pub record Replanned {S : Type 0} (json : Stringify) (s t : State S) : Type 0 where
  pub same_done : t.done ≡ s.done
  pub same_ok : t.ok ≡ s.ok
  pub patched : t.patched_step ≡ true
  pub one_more : t.replans ≡ s.replans + 1
  pub next : IsNextPlan json s.current_plan s.replans t.current_plan

-- The run is over, on the plan that it had.
pub record Ended {S : Type 0} (s t : State S) : Type 0 where
  pub same_plan : t.current_plan ≡ s.current_plan
  pub same_replans : t.replans ≡ s.replans
  pub is_done : t.done ≡ true
  pub not_ok : t.ok ≡ false

module _ (ports : Ports) where
  open ports use {World, Snapshot}

  pub advance-Frame : (s : State Snapshot) → Ensures (Frame s) (advance_node ports s)
  unfolding advance_node
  advance-Frame s =
      Ensures-if (s.patched_step || s.repeat_step) _ _
        (λ _. Ensures-pure _ (kept refl refl refl refl))
        (λ _. Ensures-pure _ (kept refl refl refl refl))

  -- What `finalAssertions` leaves: the same plan, and success only if the assertions passed.
  pub record Closing (s t : State Snapshot) (w : World) : Type 0 where
    pub same_plan : t.current_plan ≡ s.current_plan
    pub same_replans : t.replans ≡ s.replans
    pub verdict : t.ok ≡ true → FinalPassed ports s.current_plan.assertions w

  failure-Closing :
      (s : State Snapshot) (obs : ScreenObservation) (r : AssertionResult)
      → Leaves (Closing s) (final_failure ports s obs r)
  unfolding final_failure
  failure-Closing s obs r = Leaves-bind _ _ λ expected.
      Leaves-pure _ (λ w. record { same_plan = refl; same_replans = refl; verdict = λ e. cc })

  pub final_assertions-Closing :
      (s : State Snapshot) → Leaves (Closing s) (final_assertions_node ports s)
  unfolding final_assertions_node
  final_assertions-Closing s =
      final-Leaves ports s.current_plan.assertions _ (final_failure ports s)
        (λ w passed. record { same_plan = refl; same_replans = refl; verdict = λ _. passed })
        (failure-Closing s)

  module _ (json : Stringify) (config : RunConfig) where
    replanned-cases :
        (s t : State Snapshot) (before : ScreenObservation) (message : String) (r : Replan)
        → t.current_plan ≡ s.current_plan
        → t.replans ≡ s.replans
        → t.done ≡ s.done
        → t.ok ≡ s.ok
        → IsReplan json s.current_plan s.replans r
        → Ended s (replanned ports t before message r.plan)
          ⊎ Replanned json s (replanned ports t before message r.plan)
    unfolding replanned
    replanned-cases s t before message r p n d o (inl none_given) =
        rw none_given
          (inl (record { same_plan = p; same_replans = n; is_done = refl; not_ok = refl }))
    replanned-cases s t before message r p n d o (inr (q, given, next)) =
        rw given
          (inr (record { same_done = d; same_ok = o; patched = refl; one_more = cc; next = next }))

    pub replan-cases :
        (s : State Snapshot)
        → Ensures (λ t. Ended s t ⊎ Replanned json s t) (replan_node ports json config s)
    unfolding replan_node
    replan-cases s = Ensures-bind _ _ λ step. Ensures-bind _ _ λ before.
        Ensures-bind_with _ _ (try_replan-IsReplan ports json config _ step before _ _ _)
          λ r given. Ensures-pure _ (replanned-cases s _ before _ r refl refl refl refl given)
