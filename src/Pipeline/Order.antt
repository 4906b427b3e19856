-- ===== src/Pipeline/Order.antt =====
-- Which stages a run of the pipeline records.
use qa_agent.Prelude.{
  String, ◌≡◌, refl, sym, ap, subst, ◌∙◌, Bool, true, false, not, List, [], ◌∷◌, ◌++◌, Option, none,
  some, map, arith, last?, last?-append, append_assoc, append-nil, if◌then◌else◌, or_else,
}
use qa_agent.ExitCodes.{ExitCode, most_severe_exit_code}
use qa_agent.Preflight.Report.{PreflightReport, ReportStatus, describe_preflight_blocked_message}
use qa_agent.Pipeline.Steps.{
  PipelineError, Promise, resolved, failed, Stage, Correlation, StepRecord, Gate,
  classify_preflight_report, classify_correlation_result, run_step, record_error, record_step,
  record_code, is_preflight_blocked, error_class,
}
use qa_agent.Pipeline.Gates.{
  is_success, Fulfils, Fulfils-if, Fulfils-then, Fulfils-any, Passes, error-is_success, gate-Passes,
}
use qa_agent.Pipeline.{
  Stages, PipelineOptions, PipelineAllRunResult, finish, preflight_error, correlation_error,
  run_later, configure, execute,
}

abbrev pub names : List StepRecord → List String
names steps = map (λ s. s.name) steps

abbrev pub codes : List StepRecord → List ExitCode
codes steps = map (λ s. s.exit_code) steps

abbrev behind_gates : List String
behind_gates =
    "risk" ∷ "generate-plan" ∷ "execute" ∷ "report" ∷ "learning" ∷ "promote-learning" ∷ []

abbrev after_correlate : Bool → List String
after_correlate auto = (if auto then "auto-config" ∷ [] else []) ++ behind_gates

abbrev after_prepare : Bool → List String
after_prepare auto = "correlate" ∷ after_correlate auto

-- The stages in their order, with the optional one.
abbrev pub stage_names : Bool → List String
stage_names auto = "prepare" ∷ after_prepare auto

-- A run that is not blocked has every stage; one that is ends at the stage that blocks it.
abbrev pub Ended : List String → List StepRecord → Option String → Type 0
Ended later steps none = later ≡ []
Ended later steps (some at) =
    (s : StepRecord) × (last? steps ≡ some s) × (s.name ≡ at) × (is_success s.exit_code ≡ false)

-- The records of a run are those of the first stages, in their order.
pub record IsRun (auto : Bool) (r : PipelineAllRunResult) : Type 0 where
  pub later : List String
  pub order : stage_names auto ≡ names r.steps ++ later
  pub ended : Ended later r.steps r.blocked_at
  pub code : r.exit_code ≡ most_severe_exit_code (codes r.steps)

names-append :
    (xs : List StepRecord) (r : StepRecord) → names (xs ++ (r ∷ [])) ≡ names xs ++ (r.name ∷ [])
names-append [] r = refl
names-append (x ∷ xs) r = ap (λ l. x.name ∷ l) (names-append xs r)

module _ {W A : Type 0} (steps : List StepRecord) (name : String) (call : Stage W A)
    (code : A → ExitCode) where
  names-run_step : (w : W) → names (run_step steps name call code w).0 ≡ names steps ++ (name ∷ [])
  unfolding run_step record_code record_error record_step
  names-run_step w = go (call w)
    where
      go :
          (p : Promise W A)
          → names
              (elim p as (λ _. List StepRecord × W) [
                | resolved a w' ↦ (steps ++ (record_code name (code a) ∷ []), w')
                | failed e w' ↦ (steps ++ (record_error name e ∷ []), w')
              ]).0
            ≡ names steps ++ (name ∷ [])
      go (resolved a w') = names-append steps (record_code name (code a))
      go (failed e w') = names-append steps (record_error name e)

  -- The same after a list of known names.
  next-names :
      (w : W) {l : List String}
      → names steps ≡ l
      → names (run_step steps name call code w).0 ≡ l ++ (name ∷ [])
  next-names w h = names-run_step w ∙ ap (λ l. l ++ (name ∷ [])) h

-- The stages before those that no gate guards.
abbrev gated : Bool → List String
gated auto = "prepare" ∷ "correlate" ∷ (if auto then "auto-config" ∷ [] else [])

all_stages :
    (auto : Bool)
    → ((((((gated auto ++ ("risk" ∷ [])) ++ ("generate-plan" ∷ [])) ++ ("execute" ∷ []))
            ++ ("report" ∷ []))
          ++ ("learning" ∷ []))
        ++ ("promote-learning" ∷ []))
      ≡ stage_names auto
all_stages true = refl
all_stages false = refl

step-blocks :
    (auto : Bool) (before : List StepRecord) (later : List String) (name : String) (r : StepRecord)
    (posted : Option Bool)
    → r.name ≡ name
    → is_success r.exit_code ≡ false
    → stage_names auto ≡ names before ++ (name ∷ later)
    → IsRun auto (finish (before ++ (r ∷ [])) (some name) posted)
unfolding finish
step-blocks auto before later name r posted named stops order = record {
  later = later;
  order = rw (names-append before r, named, append_assoc (names before) (name ∷ []) later) order;
  ended = (r, last?-append before r, named, stops);
  code = refl;
}

gate-blocks :
    (auto : Bool) (before : List StepRecord) (later : List String) (name : String) (g : Gate)
    (posted : Option Bool)
    → Passes before name g
    → g.should_continue ≡ false
    → stage_names auto ≡ names before ++ (name ∷ later)
    → IsRun auto (finish g.steps (some name) posted)
gate-blocks auto before later name g posted h stopped order =
    subst (λ l. IsRun auto (finish l (some name) posted)) (sym h.records)
      (step-blocks auto before later name h.added posted h.named (h.goes_on ∙ stopped) order)

Passes-names :
    (before : List StepRecord) (name : String) (g : Gate) {l : List String}
    → Passes before name g
    → names before ≡ l
    → names g.steps ≡ l ++ (name ∷ [])
Passes-names before name g h e = rw (h.records, names-append before h.added, h.named, e) refl

preflight-is_success :
    (r : PreflightReport)
    → is_preflight_blocked (classify_preflight_report r) ≡ false
    → is_success (classify_preflight_report r) ≡ true
unfolding classify_preflight_report
preflight-is_success r h = go r.status h
  where
    abbrev_code : ReportStatus → ExitCode
    abbrev_code st = elim st [
      | ReportStatus.blocked ↦ ExitCode.preflight_blocked
      | ReportStatus.pass ↦ ExitCode.success
    ]

    go :
        (st : ReportStatus)
        → is_preflight_blocked (abbrev_code st) ≡ false
        → is_success (abbrev_code st) ≡ true
    go ReportStatus.blocked e = cc
    go ReportStatus.pass e = refl

correlation-is_success :
    (c : Correlation)
    → is_preflight_blocked (classify_correlation_result c) ≡ false
    → is_success (classify_correlation_result c) ≡ true
unfolding classify_correlation_result
correlation-is_success c h = ground (arith, h)

module _ (name : String) where
  code-named : (c : ExitCode) → (record_code name c).name ≡ name
  unfolding record_code record_step
  code-named c = refl

  error-named : (e : PipelineError) → (record_error name e).name ≡ name
  unfolding record_error record_step
  error-named e = refl

  error-no_success : (e : PipelineError) → is_success (record_error name e).exit_code ≡ false
  unfolding record_error record_step
  error-no_success e = error-is_success (error_class e)

module _ (stages : Stages) (cwd : String) where
  open stages use {World, notify, prepare, correlate, auto_config}

  run_later-IsRun :
      (auto : Bool) (out config project : String) (steps : List StepRecord) (w : World)
      → names steps ≡ gated auto
      → Fulfils (IsRun auto) (run_later stages cwd out config project steps w)
  unfolding run_later finish
  run_later-IsRun auto out config project steps w h = record {
    later = [];
    order = sym (
        append-nil _
        ∙ (next-names _ _ _ _ _ (
              next-names _ _ _ _ _ (
                next-names _ _ _ _ _
                  (next-names _ _ _ _ _ (next-names _ _ _ _ _ (next-names _ _ _ _ _ h)))))
            ∙ all_stages auto));
    ended = refl;
    code = refl;
  }

  configure-IsRun :
      (out : String) (options : PipelineOptions) (config project : String) (steps : List StepRecord)
      (w : World)
      → names steps ≡ "prepare" ∷ "correlate" ∷ []
      → Fulfils
          (IsRun options.auto_config)
          (configure stages cwd out options config project steps w)
  unfolding configure
  configure-IsRun out options config project steps w h =
      Fulfils-if _ options.auto_config _ _
        (λ on.
          Fulfils-then _ (λ _. Unit) (auto_config out options.preview_url project w) _ _
            (Fulfils-any _)
            (λ path w' _. run_later-IsRun options.auto_config out path project _ w' (
              names-append steps (record_code "auto-config" ExitCode.success)
              ∙ rw (on, h, code-named "auto-config" ExitCode.success) refl))
            (λ e w'.
              step-blocks options.auto_config steps behind_gates "auto-config"
                (record_error "auto-config" e) none (error-named "auto-config" e)
                (error-no_success "auto-config" e) (rw (on, h) refl)))
        (λ off. run_later-IsRun options.auto_config out config project steps w (rw (off, h) refl))

  -- A run of the pipeline that does not throw records its first stages in their order: all of them, or
  -- those up to the stage that blocks it, whose exit code is not that of success. Its exit code is
  -- the most severe one of the records.
  pub execute-IsRun :
      (out : String) (options : PipelineOptions) (w : World) (r : PipelineAllRunResult) (w' : World)
      → execute stages cwd out options w ≡ resolved r w'
      → IsRun options.auto_config r
  unfolding execute
  execute-IsRun out options w r w' e = subst (Fulfils (IsRun options.auto_config)) e (
      Fulfils-then _ (Passes [] "prepare") _ _ _
        (gate-Passes notify [] "prepare" (prepare out) classify_preflight_report
          describe_preflight_blocked_message preflight_error w preflight-is_success)
        (λ first w1 h.
          Fulfils-if _ (not first.should_continue) _ _
            (λ stopped.
              gate-blocks options.auto_config [] (after_prepare options.auto_config) "prepare" first
                first.comment_posted h ground (arith, stopped) refl)
            (λ _.
              Fulfils-then _ (Passes first.steps "correlate") _ _ _
                (gate-Passes notify first.steps "correlate"
                  (correlate out (or_else options.project_path cwd)) classify_correlation_result
                  (λ c. or_else c.block_reason "Pipeline correlation blocked") correlation_error w1
                  correlation-is_success)
                (λ second w2 k.
                  Fulfils-if _ (not second.should_continue) _ _
                    (λ stopped.
                      gate-blocks options.auto_config first.steps
                        (after_correlate options.auto_config) "correlate" second
                        second.comment_posted k ground (arith, stopped)
                        (rw (Passes-names [] "prepare" first h refl) refl))
                    (λ _. configure-IsRun out options _ _ second.steps w2 (
                      Passes-names first.steps "correlate" second k
                        (Passes-names [] "prepare" first h refl))))
                (λ _ _. tt)))
        (λ _ _. tt))
