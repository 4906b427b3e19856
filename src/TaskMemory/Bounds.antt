-- ===== src/TaskMemory/Bounds.antt =====
-- How much the memory keeps for each task.
use qa_agent.Prelude.{
  ◌+◌, ◌-◌, ◌≤◌, String, ◌<>◌, Bool, true, false, ◌||◌, List, [], ◌∷◌, ◌++◌, Option, none, some,
  arith, All, All-append, length, length-append, length-drop, length-take_last, str_eq,
  if◌then◌else◌, codes, all, is_space, last?, drop, join, take,
}
use qa_agent.Domain.Action.{QaAction}
use qa_agent.Domain.Observation.{ScreenObservation}
use qa_agent.TaskMemory.{
  TaskWorkingMemory, Memory, key, is_last, push, find, change_item, reset, created, ensure,
  observed_item, observe, tried_of, tried_item, action, hypothesis_item, hypothesis, rejected_item,
  reject, blocked_item, block, completed_item, complete,
}

-- The limits of the lists of one task.
pub record IsBounded (item : TaskWorkingMemory) : Type 0 where
  pub observed : length item.observed_states ≤ 6
  pub tried : length item.actions_tried ≤ 8
  pub hypotheses : length item.hypotheses ≤ 6
  pub rejected : length item.rejected_decisions ≤ 6
  pub blockers : length item.blockers ≤ 6

-- The calls that change the memory.
pub data Op : Type 0 where
  reset_op : Op
  ensure_op : String → String → String → String → Op
  observe_op : String → String → ScreenObservation → Op
  action_op : String → String → QaAction → String → Op
  hypothesis_op : String → String → String → Op
  reject_op : String → String → String → Option String → Op
  block_op : String → String → String → Op
  complete_op : String → String → Op

abbrev pub run_op : Op → Memory → Memory
run_op reset_op m = reset
run_op (ensure_op s t o e) m = ensure s t o e m
run_op (observe_op s t obs) m = observe s t obs m
run_op (action_op s t a outcome) m = action s t a outcome m
run_op (hypothesis_op s t text) m = hypothesis s t text m
run_op (reject_op s t reason next) m = reject s t reason next m
run_op (block_op s t reason) m = block s t reason m
run_op (complete_op s t) m = complete s t m

abbrev pub run_ops : List Op → Memory → Memory
run_ops [] m = m
run_ops (o ∷ os) m = run_ops os (run_op o m)

abbrev pub AreBounded : Memory → Type 0
AreBounded m = All (λ entry. IsBounded entry.1) m

length-push :
    (items : List String) (value : String) → length items ≤ 6 → length (push items value 6) ≤ 6
unfolding push
length-push items value h =
    elim (all is_space (codes value) || is_last value (last? items))
      as (λ b.
        length (if b then items else drop (length items + 1 - 6) (items ++ (value ∷ []))) ≤ 6) [
          | true ↦ h
          | false ↦ omega (
            arith,
            length-drop (length items + 1 - 6) (items ++ (value ∷ [])),
            length-append {0} items (value ∷ []),
          )
        ]

change_item-AreBounded :
    (k : String) (f : TaskWorkingMemory → TaskWorkingMemory) (m : Memory)
    → ((item : TaskWorkingMemory) → IsBounded item → IsBounded (f item))
    → AreBounded m
    → AreBounded (change_item k f m)
unfolding change_item
change_item-AreBounded k f [] keeps h = tt
change_item-AreBounded k f ((j, item) ∷ more) keeps h =
    go (str_eq j k) (change_item-AreBounded k f more keeps h.1)
  where
    go :
        (b : Bool)
        → AreBounded (change_item k f more)
        → AreBounded (if b then (j, f item) ∷ more else (j, item) ∷ change_item k f more)
    go true rest = (keeps item h.0, h.1)
    go false rest = (h.0, rest)

ensure-AreBounded : (s t o e : String) (m : Memory) → AreBounded m → AreBounded (ensure s t o e m)
unfolding ensure created
ensure-AreBounded s t o e m h = go (find (key s t) m)
  where
    go :
        (found : Option TaskWorkingMemory)
        → AreBounded (elim found [ some _ ↦ m | none ↦ m ++ ((key s t, created s t o e) ∷ []) ])
    go (some _) = h
    go none = All-append _ m _ h (
      record {
        observed = omega arith;
        tried = omega arith;
        hypotheses = omega arith;
        rejected = omega arith;
        blockers = omega arith;
      },
      tt,
    )

op-AreBounded : (o : Op) (m : Memory) → AreBounded m → AreBounded (run_op o m)
unfolding observe action hypothesis reject block complete observed_item tried_item hypothesis_item
    rejected_item blocked_item completed_item
op-AreBounded Op.reset_op m h = tt
op-AreBounded (Op.ensure_op s t o e) m h = ensure-AreBounded s t o e m h
op-AreBounded (Op.observe_op s t obs) m h =
    change_item-AreBounded _ _ m
      (λ i b. record {
        observed =
            length-push i.observed_states
              (obs.url <> " :: " <> join " | " (take 6 obs.visible_texts)) b.observed;
        tried = b.tried;
        hypotheses = b.hypotheses;
        rejected = b.rejected;
        blockers = b.blockers;
      })
      h
op-AreBounded (Op.action_op s t a outcome) m h =
    change_item-AreBounded _ _ m
      (λ i b. record {
        observed = b.observed;
        tried = length-take_last 8 (i.actions_tried ++ (tried_of a outcome ∷ []));
        hypotheses = b.hypotheses;
        rejected = b.rejected;
        blockers = b.blockers;
      })
      h
op-AreBounded (Op.hypothesis_op s t text) m h =
    change_item-AreBounded _ _ m
      (λ i b. record {
        observed = b.observed;
        tried = b.tried;
        hypotheses = length-push i.hypotheses text b.hypotheses;
        rejected = b.rejected;
        blockers = b.blockers;
      })
      h
op-AreBounded (Op.reject_op s t reason next) m h =
    change_item-AreBounded _ _ m
      (λ i b. record {
        observed = b.observed;
        tried = b.tried;
        hypotheses = length-push i.hypotheses ("Rejected decision: " <> reason) b.hypotheses;
        rejected =
            length-take_last 6 (
              i.rejected_decisions
              ++ (record { reason = reason; next_recommendation = next } ∷ []));
        blockers = b.blockers;
      })
      h
op-AreBounded (Op.block_op s t reason) m h =
    change_item-AreBounded _ _ m
      (λ i b. record {
        observed = b.observed;
        tried = b.tried;
        hypotheses = b.hypotheses;
        rejected = b.rejected;
        blockers = length-push i.blockers reason b.blockers;
      })
      h
op-AreBounded (Op.complete_op s t) m h =
    change_item-AreBounded _ _ m
      (λ i b. record {
        observed = b.observed;
        tried = b.tried;
        hypotheses = b.hypotheses;
        rejected = b.rejected;
        blockers = b.blockers;
      })
      h

-- After any sequence of calls on a memory within the limits, no task has more than eight actions, or six observed
-- states, hypotheses, rejected decisions or blockers.
pub run_ops-AreBounded : (os : List Op) (m : Memory) → AreBounded m → AreBounded (run_ops os m)
run_ops-AreBounded [] m h = h
run_ops-AreBounded (o ∷ os) m h = run_ops-AreBounded os (run_op o m) (op-AreBounded o m h)
