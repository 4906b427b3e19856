-- ===== src/Runner/Versions.antt =====
-- What a plan becomes over the replans of an execution.
use qa_agent.Prelude.{ℕ, ◌+◌, ◌≤◌, ◌≡◌, refl, ap, ◌∙◌, arith, true}
use qa_agent.Domain.Plan.{ExecutionPlan, RuntimeMode}
use qa_agent.Ports.{Ports}
use qa_agent.Runner.Final.{FinalPassed}
use qa_agent.Executor.Result.{PlanExecutionResult}
use qa_agent.Plan.Schema.{Stringify}
use qa_agent.Runner.Laws.{IsNextPlan}

-- The plan that runs is the one that was given, with other steps: its version counts the replans,
-- of which the plan allows so many, and none in the mode PLAN_AND_EXECUTE.
pub record IsVersionOf (plan q : ExecutionPlan) (replans : ℕ) : Type 0 where
  pub same : q ≡ record plan { version = plan.version + replans; steps = q.steps }
  pub budget : replans ≤ plan.runtime.max_replans_per_scenario
  pub fixed : plan.mode ≡ RuntimeMode.plan_and_execute → q ≡ plan

module _ (plan : ExecutionPlan) (json : Stringify) where
  pub IsVersionOf-start : IsVersionOf plan plan 0
  IsVersionOf-start = record {
    same = ap (λ k. record plan { version = k }) (omega arith);
    budget = omega arith;
    fixed = λ _. refl;
  }

  pub IsVersionOf-next :
      (p q : ExecutionPlan) (n : ℕ)
      → IsVersionOf plan p n
      → IsNextPlan json p n q
      → IsVersionOf plan q (n + 1)
  IsVersionOf-next p q n v next =
      let same_mode : p.mode ≡ plan.mode = ap (λ x. x.mode) v.same in
      let same_max : p.runtime ≡ plan.runtime = ap (λ x. x.runtime) v.same in
      record {
        same =
            next.same
            ∙ (ap {A = ExecutionPlan} (λ x. record x { version = x.version + 1; steps = q.steps })
                  v.same
                ∙ ap (λ k. record plan { version = k; steps = q.steps }) (omega arith));
        budget = ground (arith, next.budget, ap (λ x. x.max_replans_per_scenario) same_max);
        fixed = λ e. absurd (next.mode (same_mode ∙ e));
      }

-- What every executor of plans promises of a result on a plan and of the world that it leaves: the plan
-- of the result is the given one after so many replans, and a result that is ok was preceded at once
-- by a success of the final assertions of the given plan.
pub record IsVerdict (ports : Ports) (plan : ExecutionPlan) (r : PlanExecutionResult)
    (w : ports.World) : Type 0 where
  pub replans : ℕ
  pub version : IsVersionOf plan r.final_plan replans
  pub passed : r.ok ≡ true → FinalPassed ports plan.assertions w
