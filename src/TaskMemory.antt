-- ===== src/TaskMemory.antt =====
-- src/application/services/task-memory.service.ts: what was tried and seen for each task.
pub mod Bounds
use Prim.Native.Char.{code}
use qa_agent.Prelude.{
  ℕ, ◌+◌, ◌-◌, String, ◌<>◌, Bool, true, false, ◌||◌, List, [], ◌∷◌, ◌++◌, Option, none, some,
  str_eq, codes, has_prefix, all, is_space, join, take, drop, take_last, last?, length,
  if◌then◌else◌,
}
use qa_agent.Domain.Action.{QaAction, ActionBody, action_type}
use qa_agent.Domain.Observation.{ScreenObservation}

pub data MemoryState : Type 0 where
  planning acting recovering blocked done : MemoryState

pub record TriedAction : Type 0 where
  pub type : String
  pub target_element_id : Option String
  pub reason : String
  pub outcome : String

pub record RejectedDecision : Type 0 where
  pub reason : String
  pub next_recommendation : Option String

pub record TaskWorkingMemory : Type 0 where
  pub scenario_id : String
  pub task_id : String
  pub objective : String
  pub expected : String
  pub state : MemoryState
  pub observed_states : List String
  pub actions_tried : List TriedAction
  pub hypotheses : List String
  pub rejected_decisions : List RejectedDecision
  pub blockers : List String
  pub next_recommendation : Option String

-- The map, in the order of insertion.
abbrev pub Memory : Type 0
Memory = List (String × TaskWorkingMemory)

pub key : String → String → String
key scenario task = scenario <> ":" <> task

abbrev is_last : String → Option String → Bool
is_last value none = false
is_last value (some last) = str_eq last value

-- `push`: nothing blank, nothing twice in a row, and the oldest entries go.
pub push : List String → String → ℕ → List String
push items value limit =
    if all is_space (codes value) || is_last value (last? items)
    then items
    else drop (length items + 1 - limit) (items ++ (value ∷ []))

find : String → Memory → Option TaskWorkingMemory
find k [] = none
find k ((j, item) ∷ more) = if str_eq j k then some item else find k more

-- The item of a key is changed in place.
pub change_item : String → (TaskWorkingMemory → TaskWorkingMemory) → Memory → Memory
change_item k f [] = []
change_item k f ((j, item) ∷ more) =
    let rest = change_item k f more in if str_eq j k then (j, f item) ∷ more else (j, item) ∷ rest

abbrev pub reset : Memory
reset = []

-- `ensure`, as the memory that it leaves.
created : String → String → String → String → TaskWorkingMemory
created scenario task objective expected = record {
  scenario_id = scenario;
  task_id = task;
  objective = objective;
  expected = expected;
  state = MemoryState.planning;
  observed_states = [];
  actions_tried = [];
  hypotheses = [];
  rejected_decisions = [];
  blockers = [];
  next_recommendation = none;
}

pub ensure : String → String → String → String → Memory → Memory
unfolding find created key
ensure scenario task objective expected m = elim (find (key scenario task) m) [
  | some _ ↦ m
  | none ↦ m ++ ((key scenario task, created scenario task objective expected) ∷ [])
]

observed_item : ScreenObservation → TaskWorkingMemory → TaskWorkingMemory
unfolding push
observed_item obs item = record item {
  observed_states =
      push item.observed_states (obs.url <> " :: " <> join " | " (take 6 obs.visible_texts)) 6;
}

pub observe : String → String → ScreenObservation → Memory → Memory
unfolding change_item observed_item
observe scenario task obs m = change_item (key scenario task) (observed_item obs) m

-- The state after an action.
outcome_state : String → MemoryState
outcome_state outcome =
    if has_prefix (codes "REJECTED") (codes outcome)
    then MemoryState.planning
    else if str_eq outcome "RECOVERING"
    then MemoryState.recovering
    else MemoryState.acting

-- `'targetElementId' in action ? action.targetElementId : undefined`
target_of : ActionBody → Option String
target_of (ActionBody.click e) = some e
target_of (ActionBody.fill e _) = some e
target_of (ActionBody.select_option e _) = some e
target_of (ActionBody.press _ e) = e
target_of (ActionBody.drag _ e) = some e
target_of (ActionBody.upload_file e _) = some e
target_of (ActionBody.type_text e _ _) = e
target_of (ActionBody.rich_text_fill e _) = some e
target_of (ActionBody.extract e _ _) = some e
target_of (ActionBody.assert_visible e _) = e
target_of (ActionBody.assert_text e _ _) = some e
target_of _ = none

tried_of : QaAction → String → TriedAction
unfolding target_of
tried_of a outcome = record {
  type = action_type a.body;
  target_element_id = target_of a.body;
  reason = a.reason;
  outcome = outcome;
}

tried_item : QaAction → String → TaskWorkingMemory → TaskWorkingMemory
unfolding outcome_state
tried_item a outcome item = record item {
  state = outcome_state outcome;
  actions_tried = take_last 8 (item.actions_tried ++ (tried_of a outcome ∷ []));
}

pub action : String → String → QaAction → String → Memory → Memory
unfolding change_item tried_item
action scenario task a outcome m = change_item (key scenario task) (tried_item a outcome) m

hypothesis_item : String → TaskWorkingMemory → TaskWorkingMemory
unfolding push
hypothesis_item text item = record item { hypotheses = push item.hypotheses text 6 }

pub hypothesis : String → String → String → Memory → Memory
unfolding change_item hypothesis_item
hypothesis scenario task text m = change_item (key scenario task) (hypothesis_item text) m

rejected_item : String → Option String → TaskWorkingMemory → TaskWorkingMemory
unfolding push
rejected_item reason next item = record item {
  state = MemoryState.planning;
  next_recommendation = next;
  rejected_decisions =
      take_last 6
        (item.rejected_decisions ++ (record { reason = reason; next_recommendation = next } ∷ []));
  hypotheses = push item.hypotheses ("Rejected decision: " <> reason) 6;
}

pub reject : String → String → String → Option String → Memory → Memory
unfolding change_item rejected_item
reject scenario task reason next m = change_item (key scenario task) (rejected_item reason next) m

blocked_item : String → TaskWorkingMemory → TaskWorkingMemory
unfolding push
blocked_item reason item = record item {
  state = MemoryState.blocked;
  blockers = push item.blockers reason 6;
}

pub block : String → String → String → Memory → Memory
unfolding change_item blocked_item
block scenario task reason m = change_item (key scenario task) (blocked_item reason) m

-- `done`
completed_item : TaskWorkingMemory → TaskWorkingMemory
completed_item item = record item { state = MemoryState.done }

pub complete : String → String → Memory → Memory
unfolding change_item completed_item
complete scenario task m = change_item (key scenario task) completed_item m
