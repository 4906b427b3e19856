-- ===== src/Runner/Laws.antt =====
-- What a replan gives, and what the checks and their evaluations say.
use qa_agent.Prelude.{
  ℕ, ◌<◌, String, ◌≡◌, refl, ◌≢◌, ◌⊎◌, inl, inr, ap, true, false, none, some, leb, arith,
}
use qa_agent.Domain.Plan.{ExecutionStep, ExecutionPlan, ReplanReason, RuntimeMode, PlanPatch}
use qa_agent.Domain.Config.{RunConfig}
use qa_agent.Domain.Observation.{ScreenObservation}
use qa_agent.Domain.Run.{Result, ok, fail}
use qa_agent.Effect.Ensures.{Ensures, Ensures-pure, Ensures-if, Ensures-bind, Ensures-try}
use qa_agent.Plan.Schema.{Stringify, valid_plan}
use qa_agent.Plan.Patch.{apply, AppliedPlanPatch, next_plan}
use qa_agent.Plan.Patch.Applied.{apply_result}
use qa_agent.Ports.{Ports}
use qa_agent.Runner.{Replan, is_plan_and_execute, plan_of, no_plan, settle, ask_replan, try_replan}

-- The plan is a valid next version of the one before, in a run that may still replan.
pub record IsNextPlan (json : Stringify) (p : ExecutionPlan) (replans : ℕ) (q : ExecutionPlan)
    : Type 0 where
  pub same : q ≡ next_plan p q.steps
  pub valid : valid_plan json q ≡ true
  pub budget : replans < p.runtime.max_replans_per_scenario
  pub mode : p.mode ≢ RuntimeMode.plan_and_execute

-- No plan, or the next one.
abbrev pub IsReplan : Stringify → ExecutionPlan → ℕ → Replan → Type 0
IsReplan json p replans r =
    (r.plan ≡ none) ⊎ ((q : ExecutionPlan) × (r.plan ≡ some q) × IsNextPlan json p replans q)

module _ (json : Stringify) (config : RunConfig) (plan : ExecutionPlan) (replans : ℕ)
    (budget : replans < plan.runtime.max_replans_per_scenario)
    (mode : plan.mode ≢ RuntimeMode.plan_and_execute) where
  settle-IsReplan :
      (id : String) (reason : ReplanReason) (message : String) (patch : PlanPatch)
      (r : Result AppliedPlanPatch)
      → apply json plan patch config ≡ r
      → IsReplan json plan replans (settle id reason message r)
  unfolding settle plan_of no_plan
  settle-IsReplan id reason message patch (fail _) h = inl refl
  settle-IsReplan id reason message patch (ok a) h =
      elim (apply_result json plan patch config a h).2 [
        | inl applied ↦ inr (
          a.plan,
          ap (λ st. plan_of st a.plan) applied.status,
          record { same = applied.plan; valid = applied.valid; budget = budget; mode = mode },
        )
        | inr blocked ↦ inl (ap (λ st. plan_of st a.plan) blocked.status)
      ]

is_plan_and_execute-lem :
    (m : RuntimeMode) → is_plan_and_execute m ≡ false → m ≢ RuntimeMode.plan_and_execute
unfolding is_plan_and_execute
is_plan_and_execute-lem RuntimeMode.plan_and_execute h e = cc
is_plan_and_execute-lem _ h e = cc

module _ (ports : Ports) (json : Stringify) (config : RunConfig) where
  -- A replan that returns gives no plan, or the next version of the plan: valid, with other steps only,
  -- within the budget of replans, and never in the mode PLAN_AND_EXECUTE.
  pub try_replan-IsReplan :
      (plan : ExecutionPlan) (s : ExecutionStep) (before : ScreenObservation)
      (reason : ReplanReason) (message : String) (replans : ℕ)
      → Ensures
          (IsReplan json plan replans)
          (try_replan ports json config plan s before reason message replans)
  unfolding try_replan ask_replan no_plan
  try_replan-IsReplan plan s before reason message replans =
      Ensures-if (is_plan_and_execute plan.mode) _ _ (λ _. Ensures-pure _ (inl refl))
        λ other.
          Ensures-if (leb plan.runtime.max_replans_per_scenario replans) _ _
            (λ _. Ensures-pure _ (inl refl))
            λ left.
              Ensures-try _ _
                (Ensures-bind _ _ λ patch. Ensures-pure _ (
                  settle-IsReplan json config plan replans (ground (arith, left))
                    (is_plan_and_execute-lem plan.mode other) s.id reason message patch _ refl))
                (Ensures-pure _ (inl refl))
