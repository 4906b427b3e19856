-- ===== src/Runner/Final.antt =====
-- The check of the final assertions at the end of a run.
use qa_agent.Prelude.{◌≡◌, refl, Bool, true, false, some, List, subst, if◌then◌else◌}
use qa_agent.Domain.Plan.{PlanCondition}
use qa_agent.Domain.Observation.{ScreenObservation}
use qa_agent.Domain.Run.{AssertionResult}
use qa_agent.Effect.{Eff, done, ◌>>=◌, ◌>>◌, pure}
use qa_agent.Effect.Leaves.{Leaves, bind_parts}
use qa_agent.Ports.{Ports}
use qa_agent.Runner.{check_all}

-- The last that happened before a world: a page was observed, its state was read, and on these the
-- check of the conditions returned a success, which left the world as it is.
pub record FinalPassed (ports : Ports) (conditions : List PlanCondition) (end : ports.World)
    : Type 0 where
  pub obs : ScreenObservation
  pub state : ports.Snapshot
  pub verdict : AssertionResult
  pub before : ports.World
  pub seen : ports.World
  pub rebuilt : ports.World
  pub ready : ports.World
  pub observed : ports.browser_observe before ≡ done obs seen
  pub locators : ports.rebuild_locators obs seen ≡ done tt rebuilt
  pub read : ports.runtime_state obs conditions rebuilt ≡ done state ready
  pub checked : check_all ports conditions obs (some state) (some state) ready ≡ done verdict end
  pub passed : verdict.ok ≡ true

module _ (ports : Ports) (conditions : List PlanCondition) {A : Type 0}
    {P : A → ports.World → Type 0} where
  open ports use {World, browser_observe, rebuild_locators, runtime_state}

  -- A block that ends with the check and goes on only if it failed.
  pub final-Leaves :
      (x : A) (y : ScreenObservation → AssertionResult → Eff World A)
      → ((w : World) → FinalPassed ports conditions w → P x w)
      → ((obs : ScreenObservation) (r : AssertionResult) → Leaves P (y obs r))
      → Leaves P (do
        obs ← browser_observe
        rebuild_locators obs
        final ← runtime_state obs conditions
        r ← check_all ports conditions obs (some final) (some final)
        if r.ok then pure x else y obs r)
  unfolding pure
  final-Leaves x y pass fail = record {
    at = λ w a w' e.
        let (obs, w1, e1, f1) = bind_parts _ _ w e in
        let (u, w2, e2, f2) = bind_parts _ _ w1 f1 in
        let (state, w3, e3, f3) = bind_parts _ _ w2 f2 in
        let (r, w4, e4, f4) = bind_parts _ _ w3 f3 in
        end obs r w4 r.ok
          (λ good. record {
            obs = obs;
            state = state;
            verdict = r;
            before = w;
            seen = w1;
            rebuilt = w2;
            ready = w3;
            observed = e1;
            locators = e2;
            read = e3;
            checked = e4;
            passed = good;
          })
          f4;
  }
    where
      end :
          (obs : ScreenObservation) (r : AssertionResult) (v : World) (b : Bool)
          → (b ≡ true → FinalPassed ports conditions v)
          → {a : A} {w' : World} → (if b then pure x else y obs r) v ≡ done a w'
          → P a w'
      end obs r v true h {a} {w'} e =
          let same : x ≡ a = cc in
          let here : v ≡ w' = cc in
          subst (λ c. P c w') same (subst (λ u. P x u) here (pass v (h refl)))
      end obs r v false h {a} {w'} e = (fail obs r).at v a w' e
