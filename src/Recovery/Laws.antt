-- ===== src/Recovery/Laws.antt =====
-- What the recovery tries, and what its result says.
use qa_agent.Prelude.{
  suc, ◌+◌, ◌≤◌, String, ◌≡◌, refl, ap, ◌⊎◌, inl, inr, Bool, true, false, ◌&&◌, subst, List, [],
  ◌∷◌, ◌++◌, str_eq, Option, none, some, arith, length, length-take, length-append, if◌then◌else◌,
}
use qa_agent.Domain.Action.{QaAction, ActionBody, action_type}
use qa_agent.Domain.Observation.{ScreenObservation, BoundExpected}
use qa_agent.Domain.Run.{AttemptRecord, AssertionResult, ExecResult}
use qa_agent.Effect.{done, ◌>>=◌, pure}
use qa_agent.Effect.Ensures.{Ensures, Ensures-ran}
use qa_agent.Effect.Leaves.{
  Leaves, Leaves-pure, Leaves-bind, Leaves-bind_with, Leaves-seq, Leaves-then, Leaves-map,
  Ensures-Leaves,
}
use qa_agent.Ports.{Ports}
use qa_agent.Recovery.{
  RecoveryInput, Recovered, candidates, try_actions, recover, attempt_of, observed, prepend, latest,
}

-- The types of the actions tried, without the remarks on what could be seen.
abbrev pub tried : List AttemptRecord → List String
tried [] = []
tried (a ∷ more) =
    let rest = tried more in
    if str_eq a.action_type "recovery-observe" then rest else a.action_type ∷ rest

abbrev pub types : List QaAction → List String
types [] = []
types (a ∷ more) = action_type a.body ∷ types more

-- An action helped: it was executed with success, and the check of what is expected passed on the
-- world that is left.
pub record Helped (ports : Ports) (expected : BoundExpected) (action : QaAction) (end : ports.World)
    : Type 0 where
  pub exec : ExecResult
  pub check : AssertionResult
  pub before : ports.World
  pub after : ports.World
  pub settled : ports.World
  pub executed : ports.execute action before ≡ done exec after
  pub exec_ok : exec.ok ≡ true
  pub validated : ports.validate expected settled ≡ done check end
  pub check_ok : check.ok ≡ true

-- Either every candidate was tried, in order, and the recovery is exhausted; or the candidates were
-- tried up to the one that is returned, and this one helped.
abbrev pub Explains :
    (ports : Ports) → BoundExpected → List QaAction → Recovered → ports.World → Type 0
Explains ports expected cands r w =
    ((r.ok ≡ false)
      × (r.action ≡ none)
      × (r.reason ≡ some "RECOVERY_EXHAUSTED")
      × (tried r.attempts ≡ types cands))
    ⊎ ((pre : List QaAction) × (a : QaAction) × (post : List QaAction) × (r.ok ≡ true)
        × (r.action ≡ some a)
        × (cands ≡ pre ++ (a ∷ post))
        × (tried r.attempts ≡ types (pre ++ (a ∷ [])))
        × Helped ports expected a w)

action_type-ne-observe : (b : ActionBody) → str_eq (action_type b) "recovery-observe" ≡ false
action_type-ne-observe (ActionBody.click _) = refl
action_type-ne-observe _ = refl

tried-append : (xs ys : List AttemptRecord) → tried (xs ++ ys) ≡ tried xs ++ tried ys
tried-append [] ys = refl
tried-append (x ∷ xs) ys = ground (arith, tried-append xs ys)

tried-one :
    (a : QaAction) (exec : ExecResult) (before after : Option ScreenObservation)
    → tried (attempt_of a exec ∷ observed a before after) ≡ action_type a.body ∷ []
unfolding attempt_of observed
tried-one a exec before after = ground (arith, action_type-ne-observe a.body)

module _ (ports : Ports) where
  open ports use {World, validate}

  Explains-prepend :
      (expected : BoundExpected) (a : QaAction) (rest : List QaAction) (pushed : List AttemptRecord)
      (r : Recovered) (w : ports.World)
      → tried pushed ≡ action_type a.body ∷ []
      → Explains ports expected rest r w
      → Explains ports expected (a ∷ rest) (prepend pushed r) w
  unfolding prepend
  Explains-prepend expected a rest pushed r w e (inl (no_success, no_action, why, all_tried)) =
      inl (no_success, no_action, why, simp (tried-append, e, all_tried))
  Explains-prepend expected a rest pushed r w e
        (inr (pre, b, post, success, action, split, some_tried, helped)) =
      inr (
        a ∷ pre,
        b,
        post,
        success,
        action,
        ap (λ l. a ∷ l) split,
        simp (tried-append, e, some_tried),
        helped,
      )

  -- What an action that was executed and checked leaves, from what the rest of the loop leaves.
  settled-Explains :
      (input : RecoveryInput) (a : QaAction) (rest : List QaAction)
      (before : Option ScreenObservation) (exec : ExecResult) (after : Option ScreenObservation)
      (w : World) (b : Bool)
      → Leaves
          (Explains ports input.expected rest)
          (try_actions ports input rest (latest after before))
      → (b ≡ true → Helped ports input.expected a w)
      → {r : Recovered} {w' : World}
      → (if b
            then pure (record {
              ok = true;
              action = some a;
              reason = none;
              attempts = attempt_of a exec ∷ observed a before after;
            })
            else (try_actions ports input rest (latest after before) >>= λ r'.
                pure (prepend (attempt_of a exec ∷ observed a before after) r')))
          w
        ≡ done r w'
      → Explains ports input.expected (a ∷ rest) r w'
  unfolding pure
  settled-Explains input a rest before exec after w true rec h {r} {w'} e =
      let found : Recovered = record {
        ok = true;
        action = some a;
        reason = none;
        attempts = attempt_of a exec ∷ observed a before after;
      } in
      let same : found ≡ r = cc in
      let here : w ≡ w' = cc in
      subst (λ q. Explains ports input.expected (a ∷ rest) q w') same
        (inr (
          [],
          a,
          rest,
          refl,
          refl,
          refl,
          tried-one a exec before after,
          subst (λ u. Helped ports input.expected a u) here (h refl),
        ))
  settled-Explains input a rest before exec after w false rec h {r} {w'} e =
      (Leaves-then {P = Explains ports input.expected (a ∷ rest)} _ _ (
          Leaves-map _
            (λ q u k.
              Explains-prepend input.expected a rest _ q u (tried-one a exec before after) k)
            rec)).at
        w r w' e

  try_actions-Explains :
      (input : RecoveryInput) (cands : List QaAction) (before : Option ScreenObservation)
      → Leaves (Explains ports input.expected cands) (try_actions ports input cands before)
  unfolding try_actions pure
  try_actions-Explains input [] before = Leaves-pure _ (λ w. inl (refl, refl, refl, refl))
  try_actions-Explains input (a ∷ rest) before =
      Leaves-bind_with _ _ (Ensures-ran _) λ exec (w0, w1, executed). Leaves-bind _ _ λ _.
        Leaves-bind _ _ λ after.
          Leaves-seq {Q = λ check w. (v : World) × (validate input.expected v ≡ done check w)} _ _
            (record { at = λ v check w e. (v, e) })
            λ check w (v, validated) r w' e.
              settled-Explains input a rest before exec after w (exec.ok && check.ok)
                (try_actions-Explains input rest (latest after before))
                (λ good. record {
                  exec = exec;
                  check = check;
                  before = w0;
                  after = w1;
                  settled = v;
                  executed = executed;
                  exec_ok = ground (arith, good);
                  validated = validated;
                  check_ok = ground (arith, good);
                })
                e

  -- A recovery that returns has tried candidates in order: all of them if it is exhausted, and up to
  -- the one that it returns if it succeeds; and then this action was executed with success, and the
  -- check of what is expected passed on the world that the recovery leaves.
  pub recover-Explains :
      (input : RecoveryInput)
      → Leaves (Explains ports input.expected (candidates input)) (recover ports input)
  unfolding recover
  recover-Explains input = try_actions-Explains input (candidates input) input.before_observation

length-types : (cands : List QaAction) → length (types cands) ≡ length cands
length-types [] = refl
length-types (a ∷ rest) = ap suc (length-types rest)

length-candidates :
    (input : RecoveryInput)
    → length (candidates input) ≤ input.max_fallbacks + input.max_emergency_actions
unfolding candidates
length-candidates input = length-take (input.max_fallbacks + input.max_emergency_actions) _

Explains-length :
    (ports : Ports) (expected : BoundExpected) (cands : List QaAction) (r : Recovered)
    (w : ports.World)
    → Explains ports expected cands r w
    → length (tried r.attempts) ≤ length cands
Explains-length ports expected cands r w (inl (_, _, _, e)) =
    rw e (omega (arith, length-types cands))
Explains-length ports expected cands r w (inr (pre, a, post, _, _, split, e, _)) =
    rw (e, split)
      (omega (
        arith,
        length-types (pre ++ (a ∷ [])),
        length-append {0} pre (a ∷ []),
        length-append {0} pre (a ∷ post),
      ))

-- A recovery that returns has tried at most as many actions as its two budgets allow together.
pub recover_budget :
    (ports : Ports) (input : RecoveryInput)
    → Ensures
        (λ r. length (tried r.attempts) ≤ input.max_fallbacks + input.max_emergency_actions)
        (recover ports input)
recover_budget ports input =
    Ensures-Leaves _
      (λ r w h. omega (
        arith,
        Explains-length ports input.expected (candidates input) r w h,
        length-candidates input,
      ))
      (recover-Explains ports input)
