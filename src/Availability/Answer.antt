-- ===== src/Availability/Answer.antt =====
-- What the answer on an element says.
use qa_agent.Prelude.{
  ℕ, zero, suc, ◌+◌, ◌≤◌, ◌≡◌, refl, sym, Bool, true, false, not, List, [], ◌∷◌, length,
  length-append, arith, if◌then◌else◌,
}
use qa_agent.Domain.Action.{Locator}
use qa_agent.Domain.Observation.{ScreenObservation}
use qa_agent.Domain.Run.{AttemptRecord}
use qa_agent.Effect.Ensures.{Ensures, Ensures-pure, Ensures-if, Ensures-bind, Ensures-option}
use qa_agent.Availability.Container.{pick_container, resolve_plan_action}
use qa_agent.Availability.{
  EnsureElementAvailablePolicy, EnsureElementAvailableResult, AvailabilityPorts, exists_in,
  missing_result, opened_result, direct_result, attempt_of, open_attempts, ensure_available,
}

module _ (ports : AvailabilityPorts) (quiescence_ms : ℕ) (policy : EnsureElementAvailablePolicy)
    (target : Locator) (given : ScreenObservation) where
  open ports use {World}

  -- The element is said to be available exactly if it is on the page of the answer; that page is the
  -- given one unless the answer says that it was observed again; and no more containers were opened
  -- than the policy allows, none if it is disabled.
  pub record IsAnswer (r : EnsureElementAvailableResult) : Type 0 where
    pub available : r.available ≡ exists_in ports quiescence_ms policy target r.observation
    pub unchanged : r.reobserved ≡ false → (r.observation ≡ given) × (r.attempts ≡ [])
    pub budget : length r.attempts ≤ (if policy.enabled then policy.max_open_attempts else 0)

  open_attempts-IsAnswer :
      (left : ℕ) (current : ScreenObservation) (reobserved : Bool) (attempts : List AttemptRecord)
      → policy.enabled ≡ true
      → exists_in ports quiescence_ms policy target current ≡ false
      → (reobserved ≡ false → (current ≡ given) × (attempts ≡ []))
      → length attempts + left ≤ policy.max_open_attempts
      → Ensures IsAnswer
          (open_attempts ports quiescence_ms policy target left current reobserved attempts)
  unfolding open_attempts missing_result opened_result direct_result
  open_attempts-IsAnswer zero current reobserved attempts on missing same budget =
      Ensures-pure _
        (record { available = sym missing; unchanged = same; budget = ground (arith, on, budget) })
  open_attempts-IsAnswer (suc left) current reobserved attempts on missing same budget =
      let stop : IsAnswer
          (missing_result ports quiescence_ms policy target current reobserved attempts) =
        record { available = sym missing; unchanged = same; budget = ground (arith, on, budget) } in
      Ensures-option (pick_container ports.lower target policy.allowed_containers) _ _
        (λ _.
          Ensures-if (exists_in ports quiescence_ms policy target current) _ _
            (λ here. absurd (ground (arith, here, missing))) (λ _. Ensures-pure _ stop))
        λ container _.
          Ensures-option (resolve_plan_action (ports.find_by_locator current) container.open_action)
            _ _ (λ _. Ensures-pure _ stop)
            λ action _. Ensures-bind _ _ λ opened.
              Ensures-if (exists_in ports quiescence_ms policy target opened.1) _ _
                (λ here. Ensures-pure _ (record {
                  available = sym here;
                  unchanged = λ e. absurd (ground (arith, e));
                  budget =
                      ground (
                        arith,
                        on,
                        budget,
                        length-append attempts (attempt_of action opened.0 ∷ []),
                      );
                }))
                (λ gone.
                  open_attempts-IsAnswer left opened.1 true _ on gone
                    (λ e. absurd (ground (arith, e)))
                    (ground
                      (arith, budget, length-append attempts (attempt_of action opened.0 ∷ []))))

  -- The element is said to be available exactly if it is on the page of the answer; that page is the
  -- given one, and no container was opened, unless the answer says that the page was observed again;
  -- and no more containers were opened than the policy allows, none if it is disabled.
  pub ensure_available-IsAnswer :
      Ensures IsAnswer (ensure_available ports quiescence_ms policy target given)
  unfolding ensure_available missing_result direct_result
  ensure_available-IsAnswer =
      Ensures-if (exists_in ports quiescence_ms policy target given) _ _
        (λ here.
          Ensures-pure _
            (record { available = sym here; unchanged = λ _. (refl, refl); budget = omega arith }))
        (λ missing.
          Ensures-if (not policy.enabled) _ _
            (λ off. Ensures-pure _ (record {
              available = sym missing;
              unchanged = λ _. (refl, refl);
              budget = omega arith;
            }))
            (λ on.
              open_attempts-IsAnswer policy.max_open_attempts given false [] ground (arith, on)
                missing (λ _. (refl, refl)) (omega arith)))
