-- ===== src/Pipeline/Success.antt =====
-- When the pipeline exits with the code of success.
use qa_agent.Prelude.{
  String, ◌≡◌, sym, ap, subst, ◌∙◌, false, List, [], ◌∷◌, ◌++◌, none, some, map, Option-cases, inl,
  inr, last?, append-nil, All,
}
use qa_agent.ExitCodes.{ExitCode}
use qa_agent.ExitCodes.Laws.{worst-success}
use qa_agent.Pipeline.Steps.{resolved, StepRecord}
use qa_agent.Pipeline.{Stages, PipelineOptions, PipelineAllRunResult, execute}
use qa_agent.Pipeline.Gates.{is_success}
use qa_agent.Pipeline.Order.{names, codes, stage_names, Ended, execute-IsRun}

All-codes :
    (steps : List StepRecord)
    → All (λ c. c ≡ ExitCode.success) (codes steps)
    → All (λ s. s.exit_code ≡ ExitCode.success) steps
All-codes [] h = tt
All-codes (s ∷ steps) h = (h.0, All-codes steps h.1)

All-last? : {A : Type 0} (P : A → Type 0) (xs : List A) (x : A) → All P xs → last? xs ≡ some x → P x
All-last? P [] x h e = cc
All-last? P (y ∷ []) x h e = let same : y ≡ x = cc in subst P same h.0
All-last? P (y ∷ z ∷ xs) x h e = All-last? P (z ∷ xs) x h.1 e

module _ (stages : Stages) (cwd : String) (out : String) (options : PipelineOptions)
    (w : stages.World) (r : PipelineAllRunResult) (w' : stages.World) where
  -- If the pipeline exits with the code of success, then no stage blocked it, every stage is recorded,
  -- and the exit code of each is that of success.
  pub execute-success :
      execute stages cwd out options w ≡ resolved r w'
      → r.exit_code ≡ ExitCode.success
      → (r.blocked_at ≡ none)
        × (map (λ s. s.name) r.steps ≡ stage_names options.auto_config)
        × All (λ s. s.exit_code ≡ ExitCode.success) r.steps
  execute-success e h =
      let run = execute-IsRun stages cwd out options w r w' e in
      let good = All-codes r.steps (worst-success (codes r.steps) (sym run.code ∙ h)) in
      elim (Option-cases r.blocked_at) [
        | inl free ↦
            let nothing : run.later ≡ [] = subst (Ended run.later r.steps) free run.ended in
            (
              free,
              sym (run.order ∙ (ap (λ l. names r.steps ++ l) nothing ∙ append-nil (names r.steps))),
              good,
            )
        | inr (at, stopped) ↦
            let (s, last, _, bad) = subst (Ended run.later r.steps) stopped run.ended in
            absurd (
              contradiction s (All-last? (λ s. s.exit_code ≡ ExitCode.success) r.steps s good last)
                bad)
      ]
    where
      contradiction :
          (s : StepRecord) → s.exit_code ≡ ExitCode.success → is_success s.exit_code ≡ false → ⊥
      contradiction s good bad = cc
