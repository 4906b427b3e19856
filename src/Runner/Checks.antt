-- ===== src/Runner/Checks.antt =====
-- What the result of a list of checks says.
use qa_agent.Prelude.{◌≡◌, refl, ap, ◌⊎◌, inl, inr, true, false, List, [], ◌∷◌, ◌++◌, Option}
use qa_agent.Domain.Plan.{PlanCondition}
use qa_agent.Domain.Observation.{ScreenObservation}
use qa_agent.Domain.Run.{AssertionResult}
use qa_agent.Effect.{done}
use qa_agent.Effect.Ensures.{
  Ensures, Ensures-pure, Ensures-if, Ensures-map, Ensures-bind_with, Ensures-ran,
}
use qa_agent.Ports.{Ports}
use qa_agent.Runner.{check_one, check_all, all_passed}

module _ (ports : Ports) where
  open ports use {World, Snapshot}

  -- What the check of one condition gave, in some state of the world.
  abbrev pub Gave :
      PlanCondition
      → ScreenObservation
      → Option Snapshot
      → Option Snapshot
      → AssertionResult
      → Type 0
  Gave c obs before after r =
      (w : World) × (w' : World) × (check_one ports c obs before after w ≡ done r w')

  -- Every condition was checked and passed.
  pub data Passed (obs : ScreenObservation) (before after : Option Snapshot)
      : List PlanCondition → Type 0 where
    none_left : Passed obs before after []
    one_passed :
        {c : PlanCondition} {cs : List PlanCondition}
        → (r : AssertionResult) → Gave c obs before after r
        → r.ok ≡ true
        → Passed obs before after cs
        → Passed obs before after (c ∷ cs)

  -- The result is that of the first condition that failed, after others that passed; or all passed.
  abbrev pub Explained :
      ScreenObservation
      → Option Snapshot
      → Option Snapshot
      → List PlanCondition
      → AssertionResult
      → Type 0
  Explained obs before after cs r =
      ((r ≡ all_passed) × Passed obs before after cs)
      ⊎ ((pre : List PlanCondition) × (c : PlanCondition) × (post : List PlanCondition) × (cs
            ≡ pre ++ (c ∷ post))
          × Passed obs before after pre
          × Gave c obs before after r
          × (r.ok ≡ false))

  Explained-next :
      (obs : ScreenObservation) (before after : Option Snapshot) (c : PlanCondition)
      (cs : List PlanCondition) (first r : AssertionResult)
      → Gave c obs before after first
      → first.ok ≡ true
      → Explained obs before after cs r
      → Explained obs before after (c ∷ cs) r
  Explained-next obs before after c cs first r gave good (inl (e, passed)) =
      inl (e, Passed.one_passed first gave good passed)
  Explained-next obs before after c cs first r gave good
        (inr (pre, d, post, e, passed, failed, bad)) =
      inr
        (c ∷ pre, d, post, ap (λ l. c ∷ l) e, Passed.one_passed first gave good passed, failed, bad)

  -- Where `checkAll` returns, either every condition was checked and passed, and the result says so;
  -- or the conditions before one of them passed, this one failed, and the result is its own.
  pub check_all-Explained :
      (cs : List PlanCondition) (obs : ScreenObservation) (before after : Option Snapshot)
      → Ensures (Explained obs before after cs) (check_all ports cs obs before after)
  unfolding check_all
  check_all-Explained [] obs before after = Ensures-pure _ (inl (refl, Passed.none_left))
  check_all-Explained (c ∷ cs) obs before after =
      Ensures-bind_with _ _ (Ensures-ran _) λ first gave.
        Ensures-if first.ok _ _
          (λ good.
            Ensures-map _ (λ r h. Explained-next obs before after c cs first r gave good h)
              (check_all-Explained cs obs before after))
          (λ bad. Ensures-pure _ (inr ([], c, cs, refl, Passed.none_left, gave, bad)))
