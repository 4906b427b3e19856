-- ===== src/Graph/Run.antt =====
-- src/application/services/plan-graph-executor.service.ts: the graph run to its end, with the
-- approver consulted where it pauses.
use qa_agent.Prelude.{ℕ, zero, suc, String, ◌<>◌, Bool, true, false, Option, none, some, get_elem?}
use qa_agent.Domain.Action.{QaAction}
use qa_agent.Domain.Config.{RunConfig}
use qa_agent.Domain.Plan.{ExecutionPlan, ExecutionStep, DestructiveActionPolicy}
use qa_agent.Policy
use qa_agent.Policy.{Verdict, allowed, denied}
use qa_agent.Effect.{Eff, Outcome, done, threw, interrupted, ◌>>=◌, pure}
use qa_agent.Plan.Schema.{Stringify}
use qa_agent.Ports.{Ports}
use qa_agent.Graph.State.{State, initial}
use qa_agent.Graph.Nodes.{Node, node}
use qa_agent.Graph.Route.{Next, goto, end, route, unless_done}

-- How `graph.invoke` ends: the graph reaches END, pauses before the text is approved, a node or an
-- edge throws, or the recursion limit is hit.
pub data Ending (S W : Type 0) : Type 0 where
  finished : State S → W → Ending S W
  paused : State S → W → Ending S W
  failed : State S → W → Ending S W
  limit : State S → W → Ending S W

-- How `execute` ends: it returns the state, or throws; `waiting` stands for a run that still asks
-- after the number of pauses that is looked at.
pub data Executed (S W : Type 0) : Type 0 where
  returned : State S → W → Executed S W
  thrown : State S → W → Executed S W
  waiting : State S → W → Executed S W

-- What the approver is asked.
pub record ApprovalRequest : Type 0 where
  pub action : QaAction
  pub reason : String
  pub step_id : String
  pub policy : DestructiveActionPolicy

-- What a node and the edge after it give.
pub data Stepped (S W : Type 0) : Type 0 where
  moved : State S → Next → W → Stepped S W
  stopped : W → Stepped S W
  asked : W → Stepped S W

module _ (ports : Ports) (json : Stringify) (config : RunConfig) where
  open ports use {World, Snapshot}

  -- A node and then its edge.
  unfoldable pub superstep : Node → State Snapshot → Eff World (State Snapshot × Next)
  superstep n s = do s' ← node ports json config n s; next ← route n s'; pure (s', next)

  unfoldable pub stepped : Outcome World (State Snapshot × Next) → Stepped Snapshot World
  stepped (done (s, next) w) = moved s next w
  stepped (threw w) = stopped w
  stepped (interrupted w) = asked w

  unfoldable pub step : Node → State Snapshot → World → Stepped Snapshot World
  unfolding superstep stepped
  step n s w = stepped (superstep n s w)

  -- At most so many supersteps, as the recursion limit allows.
  unfoldable pub run : ℕ → Node → State Snapshot → World → Ending Snapshot World
  run zero n s w = limit s w
  run (suc fuel) n s w = elim (step n s w) [
    | moved s' (goto m) w' ↦ run fuel m s' w'
    | moved s' end w' ↦ finished s' w'
    | stopped w' ↦ failed s w'
    | asked w' ↦ paused s w'
  ]

  abbrev recursion_limit : ℕ
  recursion_limit = 100

  unfoldable pub invoke : ExecutionPlan → World → Ending Snapshot World
  invoke plan w = run recursion_limit Node.observe (initial plan) w

  -- `new Command({ resume: true })`: the guard runs again, its `interrupt` returns at once, and the
  -- graph goes on after it.
  unfoldable pub resume : State Snapshot → World → Ending Snapshot World
  unfolding unless_done
  resume s w = elim (unless_done s.done (goto Node.execute)) [
    | goto m ↦ run 99 m s w
    | end ↦ finished s w
  ]

  -- The value of the `interrupt`.
  request_for : State Snapshot → ExecutionStep → QaAction → Verdict → Option ApprovalRequest
  request_for s step action allowed = none
  request_for s step action (denied code message) = some (record {
    action = action;
    reason = message;
    step_id = step.id;
    policy = s.current_plan.runtime.destructive_action_policy;
  })

  pub request : State Snapshot → Option ApprovalRequest
  unfolding request_for
  request s = elim (get_elem? s.current_plan.steps s.step_index) [
    | none ↦ none
    | some step ↦ elim (s.current_action) [
      | none ↦ none
      | some action ↦
          request_for s step action
            (Policy.validate_destructive_text (step.description <> " " <> action.reason) config)
    ]
  ]

  -- The state that is returned where the approver says no.
  unfoldable pub rejected : State Snapshot → String → State Snapshot
  rejected s reason = record s { ok = false; done = true; failed_message = some reason }

  module _ (approve : ApprovalRequest → Eff World Bool) where
    -- The loop of `execute` over the pauses.
    unfoldable pub settle_pauses : ℕ → Ending Snapshot World → Executed Snapshot World
    unfolding resume rejected request
    settle_pauses fuel (finished s w) = returned s w
    settle_pauses fuel (failed s w) = thrown s w
    settle_pauses fuel (limit s w) = thrown s w
    settle_pauses zero (paused s w) = waiting s w
    settle_pauses (suc fuel) (paused s w) = elim (request s) [
      | none ↦ thrown s w
      | some req ↦ elim (approve req w) [
        | done true w' ↦ settle_pauses fuel (resume s w')
        | done false w' ↦ returned (rejected s req.reason) w'
        | threw w' ↦ thrown s w'
        | interrupted w' ↦ thrown s w'
      ]
    ]

    unfoldable pub execute_plan : ℕ → ExecutionPlan → World → Executed Snapshot World
    unfolding settle_pauses
    execute_plan pauses plan w = settle_pauses pauses (invoke plan w)
