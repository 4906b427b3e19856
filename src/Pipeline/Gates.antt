-- ===== src/Pipeline/Gates.antt =====
-- What a gate of the pipeline adds to the records.
use qa_agent.Prelude.{
  String, ◌≡◌, refl, Bool, true, false, List, [], ◌∷◌, ◌++◌, Option, if◌then◌else◌, or_else,
}
use qa_agent.Plan.Schema.{non_empty}
use qa_agent.ExitCodes.{ExitCode, ErrorClass, classify_error}
use qa_agent.Pipeline.Steps.{
  PipelineError, Promise, resolved, failed, Stage, StepRecord, Gate, run_gate_step, record_error,
  record_step, stop, caught, is_preflight_blocked, error_class,
}

abbrev pub is_success : ExitCode → Bool
is_success ExitCode.success = true
is_success _ = false

abbrev pub Fulfils : {W A : Type 0} → (A → Type 0) → Promise W A → Type 0
Fulfils P (resolved a w) = P a
Fulfils P (failed e w) = Unit

module _ {W B : Type 0} (P : B → Type 0) where
  pub Fulfils-if :
      (b : Bool) (p q : Promise W B)
      → (b ≡ true → Fulfils P p)
      → (b ≡ false → Fulfils P q)
      → Fulfils P (if b then p else q)
  Fulfils-if true p q hp hq = hp refl
  Fulfils-if false p q hp hq = hq refl

  pub Fulfils-then :
      {A : Type 0} (Q : A → Type 0) (p : Promise W A) (next : A → W → Promise W B)
      (handler : PipelineError → W → Promise W B)
      → Fulfils Q p
      → ((a : A) (w : W) → Q a → Fulfils P (next a w))
      → ((e : PipelineError) (w : W) → Fulfils P (handler e w))
      → Fulfils P (elim p [ resolved a w ↦ next a w | failed e w ↦ handler e w ])
  Fulfils-then Q (resolved a w) next handler h hn hh = hn a w h
  Fulfils-then Q (failed e w) next handler h hn hh = hh e w

pub Fulfils-any : {W A : Type 0} (p : Promise W A) → Fulfils (λ _. Unit) p
Fulfils-any (resolved a w) = tt
Fulfils-any (failed e w) = tt

-- A gate adds its record, which is one of success exactly if the run goes on.
pub record Passes (steps : List StepRecord) (name : String) (g : Gate) : Type 0 where
  pub added : StepRecord
  pub records : g.steps ≡ steps ++ (added ∷ [])
  pub named : added.name ≡ name
  pub goes_on : is_success added.exit_code ≡ g.should_continue

pub error-is_success : (e : ErrorClass) → is_success (classify_error e) ≡ false
unfolding classify_error
error-is_success ErrorClass.config_error = refl
error-is_success ErrorClass.preflight_blocked_error = refl
error-is_success ErrorClass.correlation_blocked_error = refl
error-is_success ErrorClass.run_timeout_error = refl
error-is_success ErrorClass.harness_fatal_error = refl
error-is_success ErrorClass.other = refl

module _ {W : Type 0} (notify : String → Stage W Bool) (steps : List StepRecord)
    (name : String) where
  stop-Passes :
      (message : String) (posted : Bool) → Passes steps name (stop notify steps name message posted)
  unfolding stop record_step
  stop-Passes message posted = record { added = _; records = refl; named = refl; goes_on = refl }

  caught-Passes :
      (message : Option String) (e : PipelineError) (w : W)
      → Fulfils (Passes steps name) (caught notify steps name message e w)
  unfolding caught record_error record_step
  caught-Passes message e w =
      Fulfils-if (Passes steps name) (non_empty (or_else message "")) _ _
        (λ _.
          Fulfils-then (Passes steps name) (λ _. Unit) (notify (or_else message "") w) _ _
            (Fulfils-any _) (λ posted w' _. stop-Passes (or_else message "") posted) (λ _ _. tt))
        (λ _. record {
          added = _;
          records = refl;
          named = refl;
          goes_on = error-is_success (error_class e);
        })

  pub gate-Passes :
      {A : Type 0} (call : Stage W A) (classify : A → ExitCode) (message : A → String)
      (error_text : PipelineError → Option String) (w : W)
      → ((a : A) → is_preflight_blocked (classify a) ≡ false → is_success (classify a) ≡ true)
      → Fulfils
          (Passes steps name)
          (run_gate_step notify steps name call classify message error_text w)
  unfolding run_gate_step
  gate-Passes call classify message error_text w h =
      Fulfils-then (Passes steps name) (λ _. Unit) (call w) _ _ (Fulfils-any _)
        (λ a w1 _.
          Fulfils-if (Passes steps name) (is_preflight_blocked (classify a)) _ _
            (λ _.
              Fulfils-then (Passes steps name) (λ _. Unit) (notify (message a) w1) _ _
                (Fulfils-any _) (λ posted w2 _. stop-Passes (message a) posted)
                (λ e w2. caught-Passes (error_text e) e w2))
            (λ free. record { added = _; records = refl; named = refl; goes_on = h a free }))
        (λ e w1. caught-Passes (error_text e) e w1)
