-- ===== src/Graph/Frame.antt =====
-- What the nodes that do not replan leave alone, and what a node may do to the outcome.
use qa_agent.Prelude.{◌≡◌, ◌⊎◌, inl, inr, true, false}
use qa_agent.Graph.State.{State}

pub record Frame {S : Type 0} (s t : State S) : Type 0 where
  pub same_plan : t.current_plan ≡ s.current_plan
  pub same_replans : t.replans ≡ s.replans
  pub outcome : ((t.done ≡ s.done) × (t.ok ≡ s.ok)) ⊎ ((t.done ≡ true) × (t.ok ≡ false))

-- The state goes on with the same outcome.
abbrev pub kept :
    {S : Type 0}
    → {s t : State S} → t.current_plan ≡ s.current_plan
    → t.replans ≡ s.replans
    → t.done ≡ s.done
    → t.ok ≡ s.ok
    → Frame s t
kept p r d o = record { same_plan = p; same_replans = r; outcome = inl (d, o) }

-- The run is over and has failed.
abbrev pub stopped :
    {S : Type 0}
    → {s t : State S} → t.current_plan ≡ s.current_plan
    → t.replans ≡ s.replans
    → t.done ≡ true
    → t.ok ≡ false
    → Frame s t
stopped p r d o = record { same_plan = p; same_replans = r; outcome = inr (d, o) }
