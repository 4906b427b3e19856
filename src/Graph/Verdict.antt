-- ===== src/Graph/Verdict.antt =====
-- What a run that ends with success has checked, and what the plan has become on the way.
use qa_agent.Prelude.{
  ◌≡◌, ◌≢◌, refl, ◌⊎◌, inl, inr, true, false, not, Bool, Bool-cases, subst, sym, ap, ◌∙◌, arith,
  is_some, leb, length, if◌then◌else◌,
}
use qa_agent.Domain.Plan.{ExecutionPlan, ExecutionStep, StepFailurePolicy}
use qa_agent.Domain.Config.{RunConfig}
use qa_agent.Domain.Run.{AssertionResult}
use qa_agent.Effect.{◌>>=◌, pure}
use qa_agent.Effect.Ensures.{Ensures, Ensures-pure, Ensures-bind, Ensures-bind_with, Ensures-map}
use qa_agent.Plan.Schema.{Stringify}
use qa_agent.Ports.{Ports}
use qa_agent.Runner.Final.{FinalPassed}
use qa_agent.Runner.Versions.{IsVersionOf, IsVersionOf-next}
use qa_agent.Effect.Leaves.{Leaves, Leaves-Ensures, Leaves-seq}
use qa_agent.Graph.Frame.{Frame}
use qa_agent.Graph.State.{State}
use qa_agent.Graph.Nodes.{Node, node}
use qa_agent.Graph.Nodes.Act.Frame.{
  observe-Frame, precheck-Frame, resolve-Frame, policy_guard-Frame, destructive_guard-Frame,
  execute-Frame, observe_after-Frame,
}
use qa_agent.Graph.Nodes.Check.Frame.{postcheck-Frame, assertions-Frame, repeat_until-Frame}
use qa_agent.Graph.Nodes.Settle.Frame.{
  Ended, Replanned, Closing, final_assertions-Closing, replan-cases, advance-Frame,
}
use qa_agent.Graph.Route.{
  Next, goto, end, route, unless_done, policy_next, after_precheck, after_resolve, after_postcheck,
  after_repeat, after_replan, after_advance,
}
use qa_agent.Graph.Run.{superstep}

module _ (ports : Ports) (plan : ExecutionPlan) (json : Stringify) (config : RunConfig) where
  open ports use {World, Snapshot}

  -- Between two nodes: success and the end of the run exclude each other.
  pub record Going (t : State Snapshot) : Type 0 where
    pub version : IsVersionOf plan t.current_plan t.replans
    pub matches : t.ok ≡ not t.done

  -- At the end that a node other than finalAssertions sets: the run has failed.
  pub record Stopped (t : State Snapshot) : Type 0 where
    pub version : IsVersionOf plan t.current_plan t.replans
    pub not_ok : t.ok ≡ false

  -- At the end: success means that the final assertions have just passed.
  pub record Closed (t : State Snapshot) (w : World) : Type 0 where
    pub version : IsVersionOf plan t.current_plan t.replans
    pub verdict : t.ok ≡ true → FinalPassed ports plan.assertions w

  abbrev pub Sound : State Snapshot → Next → Type 0
  Sound t (goto m) = Going t
  Sound t end = Stopped t

  abbrev pub SoundAt : State Snapshot → Next → World → Type 0
  SoundAt t (goto m) w = Going t
  SoundAt t end w = Closed t w

  pub Stopped-Closed : (t : State Snapshot) (w : World) → Stopped t → Closed t w
  Stopped-Closed t w h = record { version = h.version; verdict = λ e. ground (arith, h.not_ok, e) }

  anywhere : (t : State Snapshot) (next : Next) (w : World) → Sound t next → SoundAt t next w
  anywhere t (goto m) w h = h
  anywhere t end w h = Stopped-Closed t w h

  -- What the nodes other than replan and finalAssertions may do.
  Frame-Going : (s t : State Snapshot) → Frame s t → Going s → Going t
  Frame-Going s t f h = record {
    version = rw (f.same_plan, f.same_replans) h.version;
    matches = elim f.outcome [
      | inl (d, o) ↦ o ∙ (h.matches ∙ ap not (sym d))
      | inr (d, o) ↦ o ∙ ap not (sym d)
    ];
  }

  pub Going-end : (t : State Snapshot) → Going t → t.done ≡ true → Stopped t
  Going-end t h d = record { version = h.version; not_ok = ground (arith, h.matches, d) }

  unless_done-Sound :
      (t : State Snapshot) (next : Next)
      → Going t
      → (t.done ≡ false → Sound t next)
      → Sound t (unless_done t.done next)
  unfolding unless_done
  unless_done-Sound t next h k = elim (Bool-cases t.done) [
    | inl d ↦ subst (λ b. Sound t (if b then end else next)) (sym d) (Going-end t h d)
    | inr d ↦ subst (λ b. Sound t (if b then end else next)) (sym d) (k d)
  ]

  -- A choice between two nodes.
  if-Sound :
      (t : State Snapshot) (b : Bool) (m n : Node)
      → Going t
      → Sound t (if b then goto m else goto n)
  if-Sound t true m n h = h
  if-Sound t false m n h = h

  policy-Sound :
      (t : State Snapshot) (policy : StepFailurePolicy) → Going t → Sound t (policy_next policy)
  unfolding policy_next
  policy-Sound t StepFailurePolicy.continue_with_warning h = h
  policy-Sound t StepFailurePolicy.block h = h
  policy-Sound t StepFailurePolicy.recover h = h
  policy-Sound t StepFailurePolicy.ask_llm_to_replan h = h

  precheck-Sound :
      (t : State Snapshot) (pre : AssertionResult) (policy : StepFailurePolicy)
      → Going t
      → Sound t (after_precheck pre policy)
  unfolding after_precheck
  precheck-Sound t pre policy h =
      elim pre.ok as (λ b. Sound t (if b then goto Node.resolve_action else policy_next policy)) [
        | true ↦ h
        | false ↦ policy-Sound t policy h
      ]

  postcheck-Sound :
      (t : State Snapshot) (v : AssertionResult) → Going t → Sound t (after_postcheck t v)
  unfolding after_postcheck
  postcheck-Sound t v h =
      elim t.passed
        as (λ b. Sound t (
          if b
          then goto Node.advance
          else if v.ok
          then goto Node.assertions
          else goto Node.replan)) [ true ↦ h | false ↦ if-Sound t v.ok _ _ h ]

  resolve-Sound : (t : State Snapshot) → Going t → Sound t (after_resolve t)
  unfolding after_resolve
  resolve-Sound t h = unless_done-Sound t _ h (λ _. if-Sound t (is_some t.current_action) _ _ h)

  repeat-Sound : (t : State Snapshot) → Going t → Sound t (after_repeat t)
  unfolding after_repeat
  repeat-Sound t h = unless_done-Sound t _ h (λ _. if-Sound t t.repeat_step _ _ h)

  advance-Sound : (t : State Snapshot) → Going t → Sound t (after_advance t)
  unfolding after_advance
  advance-Sound t h = if-Sound t (leb (length t.current_plan.steps) t.step_index) _ _ h

  final-Sound : (s t : State Snapshot) (w : World) → Going s → Closing ports s t w → Closed t w
  final-Sound s t w h f = record {
    version = rw (f.same_plan, f.same_replans) h.version;
    verdict = λ e.
        subst (λ c. FinalPassed ports c w) (ap (λ p. p.assertions) h.version.same) (f.verdict e);
  }

  replan-Sound :
      (s t : State Snapshot) → Going s → Ended s t ⊎ Replanned json s t → Sound t (after_replan t)
  unfolding after_replan unless_done
  replan-Sound s t h (inl over) =
      unless_done-Sound t _
        (record {
          version = rw (over.same_plan, over.same_replans) h.version;
          matches = over.not_ok ∙ ap not (sym over.is_done);
        })
        (λ not_done. ground (arith, over.is_done))
  replan-Sound s t h (inr next) =
      let going : Going t = record {
        version = rw next.one_more (
            IsVersionOf-next plan json s.current_plan t.current_plan s.replans h.version next.next);
        matches = next.same_ok ∙ (h.matches ∙ ap not (sym next.same_done));
      } in
      unless_done-Sound t _ going
        (λ _. subst (λ b. Sound t (if b then goto Node.observe else end)) (sym next.patched) going)

  -- A node that leaves the plan alone, and an edge that keeps the rest.
  framed :
      (n : Node) (s : State Snapshot)
      → Ensures (Frame s) (node ports json config n s)
      → ((t : State Snapshot) → Going t → Ensures {W = World} (Sound t) (route n t))
      → Going s
      → Ensures (λ p. Sound p.0 p.1) (superstep ports json config n s)
  unfolding superstep
  framed n s f r h = Ensures-bind_with _ _ f λ t frame.
      Ensures-bind_with _ _ (r t (Frame-Going s t frame h)) λ next sound. Ensures-pure _ sound

  superstep-Sound :
      (n : Node) (s : State Snapshot)
      → n ≢ Node.final_assertions
      → Going s
      → Ensures (λ p. Sound p.0 p.1) (superstep ports json config n s)
  unfolding node route superstep
  superstep-Sound Node.observe s other h =
      framed Node.observe s (observe-Frame ports s) (λ t g. Ensures-pure _ g) h
  superstep-Sound Node.precheck s other h =
      framed Node.precheck s (precheck-Frame ports s)
        (λ t g. Ensures-bind _ _ λ (step : ExecutionStep).
          Ensures-bind _ _
            λ (pre : AssertionResult). Ensures-pure _ (precheck-Sound t pre step.on_failure g))
        h
  superstep-Sound Node.resolve_action s other h =
      framed Node.resolve_action s (resolve-Frame ports config s)
        (λ t g. Ensures-pure _ (resolve-Sound t g)) h
  superstep-Sound Node.policy_guard s other h =
      framed Node.policy_guard s (policy_guard-Frame ports config s)
        (λ t g. Ensures-pure _ (unless_done-Sound t _ g (λ _. g))) h
  superstep-Sound Node.destructive_guard s other h =
      framed Node.destructive_guard s (destructive_guard-Frame ports config s)
        (λ t g. Ensures-pure _ (unless_done-Sound t _ g (λ _. g))) h
  superstep-Sound Node.execute s other h =
      framed Node.execute s (execute-Frame ports config s) (λ t g. Ensures-pure _ g) h
  superstep-Sound Node.observe_after s other h =
      framed Node.observe_after s (observe_after-Frame ports s) (λ t g. Ensures-pure _ g) h
  superstep-Sound Node.postcheck s other h =
      framed Node.postcheck s (postcheck-Frame ports config s)
        (λ t g. Ensures-bind _ _ λ (v : AssertionResult). Ensures-pure _ (postcheck-Sound t v g)) h
  superstep-Sound Node.assertions s other h =
      framed Node.assertions s (assertions-Frame ports s)
        (λ t g. Ensures-bind _ _ λ (v : AssertionResult). Ensures-pure _ (if-Sound t v.ok _ _ g)) h
  superstep-Sound Node.repeat_until s other h =
      framed Node.repeat_until s (repeat_until-Frame ports s)
        (λ t g. Ensures-pure _ (repeat-Sound t g)) h
  superstep-Sound Node.replan s other h =
      Ensures-bind_with _ _ (replan-cases ports json config s) λ t c.
        Ensures-bind_with _ _ (Ensures-pure {P = Sound t} _ (replan-Sound s t h c))
          λ next sound. Ensures-pure _ sound
  superstep-Sound Node.advance s other h =
      framed Node.advance s (advance-Frame ports s) (λ t g. Ensures-pure _ (advance-Sound t g)) h
  superstep-Sound Node.final_assertions s other h = absurd (other refl)

  pub superstep-SoundAt :
      (n : Node) (s : State Snapshot)
      → Going s
      → Leaves (λ p w. SoundAt p.0 p.1 w) (superstep ports json config n s)
  unfolding node route superstep ◌>>=◌ pure
  superstep-SoundAt Node.final_assertions s h =
      Leaves-seq _ _ (final_assertions-Closing ports s) λ t v c p w' e.
        let same : (t, end) ≡ p = cc in
        let here : v ≡ w' = cc in
        subst (λ q. SoundAt q.0 q.1 w') same
          (subst (λ u. SoundAt t end u) here (final-Sound s t v h c))
  superstep-SoundAt n s h =
      Leaves-Ensures _
        (Ensures-map _ (λ p k w. anywhere p.0 p.1 w k) (superstep-Sound n s (λ e. cc) h))
