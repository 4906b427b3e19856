-- ===== src/ExitCodes/Laws.antt =====
-- What the most severe exit code is.
use qa_agent.Prelude.{
  ℕ, ◌≤◌, ◌<◌, ◌≡◌, refl, Bool, true, false, List, [], ◌∷◌, ◌++◌, arith, All, All-append, All-map,
  append_assoc, subst, sym, ltb, if◌then◌else◌,
}
use qa_agent.ExitCodes.{ExitCode, severity_rank, worse, reduce_codes, most_severe_exit_code}

-- A code of the list that no code exceeds, and that those before it do not reach.
pub record IsFirstWorst (codes : List ExitCode) (c : ExitCode) : Type 0 where
  pub before : List ExitCode
  pub after : List ExitCode
  pub split : codes ≡ before ++ (c ∷ after)
  pub lower : All (λ d. severity_rank d < severity_rank c) before
  pub bound : All (λ d. severity_rank d ≤ severity_rank c) after

ltb_lem : {m n : ℕ} → ltb m n ≡ true → m < n
ltb_lem h = ground (arith, h)

not_ltb_lem : {m n : ℕ} → ltb m n ≡ false → n ≤ m
not_ltb_lem h = ground (arith, h)

-- A worst code so far, and those after it that it bounds.
reduce-IsFirstWorst :
    (before : List ExitCode) (c : ExitCode) (seen rest : List ExitCode)
    → All (λ d. severity_rank d < severity_rank c) before
    → All (λ d. severity_rank d ≤ severity_rank c) seen
    → IsFirstWorst (before ++ (c ∷ (seen ++ rest))) (reduce_codes c rest)
unfolding reduce_codes worse
reduce-IsFirstWorst before c seen [] lower bound = record {
  before = before;
  after = seen ++ [];
  split = refl;
  lower = lower;
  bound = All-append _ seen [] bound tt;
}
reduce-IsFirstWorst before c seen (code ∷ rest) lower bound =
    go (ltb (severity_rank c) (severity_rank code)) refl
      (λ lower' bound'. reduce-IsFirstWorst (before ++ (c ∷ seen)) code [] rest lower' bound')
      (λ bound'. reduce-IsFirstWorst before c (seen ++ (code ∷ [])) rest lower bound')
  where
    go :
        (b : Bool)
        → ltb (severity_rank c) (severity_rank code) ≡ b
        → (All (λ d. severity_rank d < severity_rank code) (before ++ (c ∷ seen))
            → Unit {0}
            → IsFirstWorst ((before ++ (c ∷ seen)) ++ (code ∷ rest)) (reduce_codes code rest))
        → (All (λ d. severity_rank d ≤ severity_rank c) (seen ++ (code ∷ []))
            → IsFirstWorst (before ++ (c ∷ ((seen ++ (code ∷ [])) ++ rest))) (reduce_codes c rest))
        → IsFirstWorst
            (before ++ (c ∷ (seen ++ (code ∷ rest))))
            (reduce_codes (if b then code else c) rest)
    go true e higher same =
        subst (λ l. IsFirstWorst l (reduce_codes code rest))
          (append_assoc before (c ∷ seen) (code ∷ rest))
          (higher
            (All-append _ before (c ∷ seen)
              (All-map before (λ d h. omega (arith, h, ltb_lem e)) lower)
              (ltb_lem e, All-map seen (λ d h. omega (arith, h, ltb_lem e)) bound))
            tt)
    go false e higher same =
        subst (λ l. IsFirstWorst (before ++ (c ∷ l)) (reduce_codes c rest))
          (append_assoc seen (code ∷ []) rest)
          (same (All-append _ seen (code ∷ []) bound (not_ltb_lem e, tt)))

-- The exit code for a run of several parts is the first of the most severe codes of the parts.
pub most_severe_exit_code-IsFirstWorst :
    (code : ExitCode) (codes : List ExitCode)
    → IsFirstWorst (code ∷ codes) (most_severe_exit_code (code ∷ codes))
unfolding most_severe_exit_code
most_severe_exit_code-IsFirstWorst code codes = reduce-IsFirstWorst [] code [] codes tt tt

rank-zero : (c : ExitCode) → severity_rank c ≤ 0 → c ≡ ExitCode.success
unfolding severity_rank
rank-zero ExitCode.success h = refl
rank-zero ExitCode.config_error h = absurd (omega (arith, h))
rank-zero ExitCode.bugs_found h = absurd (omega (arith, h))
rank-zero ExitCode.preflight_blocked h = absurd (omega (arith, h))
rank-zero ExitCode.onboarding_blocked h = absurd (omega (arith, h))
rank-zero ExitCode.timeout h = absurd (omega (arith, h))
rank-zero ExitCode.harness_fatal h = absurd (omega (arith, h))

rank-success : severity_rank ExitCode.success ≡ 0
unfolding severity_rank
rank-success = refl

-- Where the most severe code is that of success, every code is.
pub worst-success :
    (l : List ExitCode)
    → most_severe_exit_code l ≡ ExitCode.success
    → All (λ c. c ≡ ExitCode.success) l
worst-success [] h = tt
worst-success (c ∷ l) h =
    let worst : IsFirstWorst (c ∷ l) ExitCode.success =
      subst (IsFirstWorst (c ∷ l)) h (most_severe_exit_code-IsFirstWorst c l) in
    subst (All (λ d. d ≡ ExitCode.success)) (sym worst.split) (
      All-append _ worst.before _
        (All-map worst.before (λ d lower. absurd (omega (arith, lower, rank-success))) worst.lower)
        (
          refl,
          All-map worst.after (λ d bound. rank-zero d (omega (arith, bound, rank-success)))
              worst.bound,
        ))
