-- ===== src/Preflight/Laws.antt =====
-- What holds of the environment and of the report after a preflight that does not throw.
use qa_agent.Prelude.{
  String, ◌≡◌, refl, sym, ap, subst, ◌∙◌, ◌⊎◌, inl, inr, true, false, List, [], ◌∷◌, map, any,
  arith, Bool-cases, str_eq, eq_iff,
}
use qa_agent.Plan.Schema.{non_empty}
use qa_agent.Effect.{pure, raise}
use qa_agent.Effect.Ensures.{
  Ensures, Ensures-pure, Ensures-raise, Ensures-if, Ensures-bind, Ensures-bind_with,
}
use qa_agent.Preflight.Report.{CheckItem, Checks, ReportStatus, is_blocking_checks_ok, has_failed}
use qa_agent.Preflight.Report.Laws.{report_blocked, report_of, is_blocked, status-not}
use qa_agent.Preflight.Variables.{Environment, trimmed, missing_of, validate_pr_context}
use qa_agent.Preflight.Sanitized.{sanitized, words_kept}
use qa_agent.Preflight.Consult.{PreflightPorts}
use qa_agent.Preflight.{PreflightResult, run_checks, sanitize_report, run, run_or_throw}

-- A variable holds more than white space.
abbrev IsGiven : Environment → String → Type 0
IsGiven env key = non_empty (trimmed env key) ≡ true

-- The environment of a pull request with what the pipeline needs.
pub record IsReady (env : Environment) : Type 0 where
  pub token : IsGiven env "CLICKUP_TOKEN"
  pub event :
      (trimmed env "GITHUB_EVENT_NAME" ≡ "pull_request")
      ⊎ (trimmed env "GITHUB_EVENT_NAME" ≡ "pull_request_target")
  pub ref : IsGiven env "GITHUB_REF"
  pub head_ref : IsGiven env "GITHUB_HEAD_REF"
  pub base_ref : IsGiven env "GITHUB_BASE_REF"

event_cases :
    (env : Environment)
    → (validate_pr_context env).ok ≡ true
    → (trimmed env "GITHUB_EVENT_NAME" ≡ "pull_request")
      ⊎ (trimmed env "GITHUB_EVENT_NAME" ≡ "pull_request_target")
unfolding validate_pr_context missing_of
event_cases env h = elim (Bool-cases (str_eq (trimmed env "GITHUB_EVENT_NAME") "pull_request")) [
  | inl e ↦ inl ((eq_iff (trimmed env "GITHUB_EVENT_NAME") "pull_request").0 e)
  | inr e ↦
      inr ((eq_iff (trimmed env "GITHUB_EVENT_NAME") "pull_request_target").0 ground (arith, h, e))
]

refs-IsGiven :
    (env : Environment)
    → (validate_pr_context env).ok ≡ true
    → IsGiven env "GITHUB_REF" × IsGiven env "GITHUB_HEAD_REF" × IsGiven env "GITHUB_BASE_REF"
unfolding validate_pr_context missing_of
refs-IsGiven env h = (ground (arith, h), ground (arith, h), ground (arith, h))

-- What every value of the checks has of the environment.
record Reads (env : Environment) (c : Checks) : Type 0 where
  pub token : c.token_check ≡ non_empty (trimmed env "CLICKUP_TOKEN")
  pub context : c.context ≡ validate_pr_context env

-- The checks that block are ok.
blocking_ok_parts :
    (c : Checks) → is_blocking_checks_ok c ≡ true → (c.token_check ≡ true) × (c.context.ok ≡ true)
unfolding is_blocking_checks_ok
blocking_ok_parts c h = (ground (arith, h), ground (arith, h))

any-cleaned :
    (f : String → String) (items : List CheckItem)
    → any has_failed
        (map {A = CheckItem} {B = CheckItem} (λ i. record i { message = f i.message }) items)
      ≡ any has_failed items
any-cleaned f [] = refl
any-cleaned f (i ∷ items) = rw (any-cleaned f items) refl

module _ (ports : PreflightPorts) where
  open ports use {World, env, clean}

  run_checks-Reads : Ensures {W = World} (Reads env) (run_checks ports)
  unfolding run_checks
  run_checks-Reads = Ensures-bind _ _ λ _. Ensures-bind _ _ λ _. Ensures-bind _ _ λ _.
      Ensures-bind _ _ λ _.
        Ensures-bind _ _
          λ _. Ensures-bind _ _ λ _. Ensures-pure _ (record { token = refl; context = refl })

  -- What a result says that passes.
  abbrev Passed : PreflightResult → Type 0
  Passed result =
      result.report.status ≡ ReportStatus.pass
      → IsReady env × (any has_failed result.report.check_items ≡ false)

  ready :
      (c : Checks)
      → Reads env c
      → (report_of c).status ≡ ReportStatus.pass
      → IsReady env × (any has_failed (report_of c).check_items ≡ false)
  ready c reads h =
      let open_gate : is_blocked (report_of c) ≡ false =
        ap (λ st. is_blocked (record (report_of c) { status = st })) h in
      let all_ok : is_blocking_checks_ok c ≡ true =
        ground (arith, open_gate, status-not c (is_blocking_checks_ok c)) in
      let (token, context) = blocking_ok_parts c all_ok in
      let context_ok : (validate_pr_context env).ok ≡ true =
        subst (λ x. x.ok ≡ true) reads.context context in
      let (ref, head, base) = refs-IsGiven env context_ok in
      (
        record {
          token = sym reads.token ∙ token;
          event = event_cases env context_ok;
          ref = ref;
          head_ref = head;
          base_ref = base;
        },
        sym (report_blocked c).0 ∙ open_gate,
      )

  run-Passed : (output_dir : String) → Ensures {W = World} Passed (run ports output_dir)
  unfolding run sanitize_report sanitized
  run-Passed output_dir = Ensures-bind_with _ _ run_checks-Reads λ c reads.
      Ensures-if (words_kept clean (report_of c)) _ _
        (λ _. Ensures-bind _ _ λ path. Ensures-pure _ (λ h.
          let (a, b) = ready c reads h in (a, any-cleaned clean (report_of c).check_items ∙ b)))
        (λ _. Ensures-raise)

  -- What `run_or_throw` ensures.
  abbrev Opened : PreflightResult → Type 0
  Opened result =
      (result.report.status ≡ ReportStatus.pass)
      × (any has_failed result.report.check_items ≡ false)
      × IsReady env

  opened :
      (result : PreflightResult)
      → Passed result
      → (st : ReportStatus) → result.report.status ≡ st
      → Ensures {W = World} Opened
          (elim st [ ReportStatus.blocked ↦ raise | ReportStatus.pass ↦ pure result ])
  opened result h ReportStatus.pass e = let (r, f) = h e in Ensures-pure _ (e, f, r)
  opened result h ReportStatus.blocked e = Ensures-raise

  -- If the preflight does not throw, its report passes and has no failed item, and the environment is
  -- that of a pull request with a token: the event is one of a pull request, and its refs are set.
  pub run_or_throw-IsReady :
      (output_dir : String)
      → Ensures {W = World}
          (λ result.
            (result.report.status ≡ ReportStatus.pass)
            × (any has_failed result.report.check_items ≡ false)
            × IsReady env)
          (run_or_throw ports output_dir)
  unfolding run_or_throw
  run_or_throw-IsReady output_dir =
      Ensures-bind_with _ _ (run-Passed output_dir)
        (λ result h. opened result h result.report.status refl)
