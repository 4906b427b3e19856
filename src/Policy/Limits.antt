-- ===== src/Policy/Limits.antt =====
-- Which routes a pattern allows, and when there are enough failed attempts.
use qa_agent.Prelude.{
  ℕ, zero, suc, ◌+◌, ◌≤◌, ◌≡◌, ◌≢◌, refl, ap, ◌∙◌, ◌↔◌, ◌⊎◌, inl, inr, true, String, List, [], ◌∷◌,
  ◌++◌, Text, codes, prefix_rest, has_prefix-append, select, length, All, Exists, any-Exists,
  Bool-cases, arith, str_eq, eq_iff, ◌==◌,
}
use qa_agent.Domain.Run.{AttemptRecord, AttemptStatus}
use qa_agent.Policy.{drop_star, route_allows, semantic_failure, semantic_failures, is_failed}

-- No star in a text.
abbrev pub StarFree : Text → Type 0
StarFree s = All (λ c. c ≢ b'*') s

-- A route lies under a pattern: it goes on behind the pattern without its first star.
abbrev pub Under : String → String → Type 0
Under to pattern =
    (rest : Text) × ((StarFree (codes pattern) × (codes to ≡ codes pattern ++ rest))
      ⊎ ((pre : Text) × (post : Text) × StarFree pre
          × (codes pattern ≡ pre ++ (b'*' ∷ post))
          × (codes to ≡ (pre ++ post) ++ rest)))

drop_star-free : (s : Text) → StarFree s → drop_star s ≡ s
unfolding drop_star
drop_star-free [] h = refl
drop_star-free (c ∷ s) h = ground (arith, h.0, drop_star-free s h.1)

drop_star-at : (pre post : Text) → StarFree pre → drop_star (pre ++ (b'*' ∷ post)) ≡ pre ++ post
unfolding drop_star
drop_star-at [] post h = refl
drop_star-at (c ∷ pre) post h = ground (arith, h.0, drop_star-at pre post h.1)

star-cases :
    (s : Text)
    → StarFree s ⊎ ((pre : Text) × (post : Text) × StarFree pre × (s ≡ pre ++ (b'*' ∷ post)))
star-cases [] = inl tt
star-cases (c ∷ s) = elim (Bool-cases (c == b'*')) [
  | inl e ↦ let star : c ≡ b'*' = ground (arith, e) in inr ([], s, tt, ap (λ d. d ∷ s) star)
  | inr e ↦ elim (star-cases s) [
    | inl free ↦ inl (ground (arith, e), free)
    | inr (pre, post, free, split) ↦
        inr (c ∷ pre, post, (ground (arith, e), free), ap (λ t. c ∷ t) split)
  ]
]

pub route_allows-Under : (to pattern : String) → (route_allows to pattern ≡ true) ↔ Under to pattern
unfolding route_allows
route_allows-Under to pattern = (
  (λ h.
      let (rest, e) = prefix_rest _ _ h in
      elim (star-cases (codes pattern)) [
        | inl free ↦ (rest, inl (free, e ∙ ap (λ p. p ++ rest) (drop_star-free _ free)))
        | inr (pre, post, free, split) ↦ (
          rest,
          inr (
            pre,
            post,
            free,
            split,
            e ∙ ap (λ p. p ++ rest) (ap drop_star split ∙ drop_star-at pre post free),
          ),
        )
      ]),
  (λ (rest, u). elim u [
    | inl (free, e) ↦ rw (drop_star-free _ free, e) (has_prefix-append (codes pattern) rest)
    | inr (pre, post, free, split, e) ↦
        rw (split, drop_star-at pre post free, e) (has_prefix-append (pre ++ post) rest)
  ]),
)

abbrev pub semantic_types : List String
semantic_types = "click" ∷ "fill" ∷ "select" ∷ "press" ∷ "clickOutside" ∷ []

-- A semantic action that failed.
abbrev pub HasFailed : AttemptRecord → Type 0
HasFailed a = (a.result ≡ AttemptStatus.failed) × Exists (λ t. a.action_type ≡ t) semantic_types

-- So many items of a list fail, one behind the other.
abbrev pub AtLeast : ℕ → List AttemptRecord → Type 0
AtLeast zero attempts = Unit
AtLeast (suc n) attempts =
    (pre : List AttemptRecord) × (a : AttemptRecord) × (post : List AttemptRecord) × (attempts
      ≡ pre ++ (a ∷ post))
    × HasFailed a
    × AtLeast n post

semantic_failure-HasFailed : (a : AttemptRecord) → (semantic_failure a ≡ true) ↔ HasFailed a
unfolding semantic_failure is_failed
semantic_failure-HasFailed a =
    ground (arith, any-Exists (str_eq a.action_type) semantic_types (λ t. eq_iff a.action_type t))

failures : List AttemptRecord → ℕ
failures attempts = length (select semantic_failure attempts)

failures-append : (xs ys : List AttemptRecord) → failures (xs ++ ys) ≡ failures xs + failures ys
unfolding failures
failures-append [] ys = omega arith
failures-append (x ∷ xs) ys = ground (arith, failures-append xs ys)

AtLeast-found : (n : ℕ) (attempts : List AttemptRecord) → n ≤ failures attempts → AtLeast n attempts
unfolding failures
AtLeast-found zero attempts h = tt
AtLeast-found (suc n) [] h = absurd (ground (arith, h))
AtLeast-found (suc n) (a ∷ attempts) h = elim (Bool-cases (semantic_failure a)) [
  | inl e ↦ (
    [],
    a,
    attempts,
    refl,
    (semantic_failure-HasFailed a).0 e,
    AtLeast-found n attempts (ground (arith, e, h)),
  )
  | inr e ↦
      let (pre, b, post, split, failed, more) =
        AtLeast-found (suc n) attempts (ground (arith, e, h)) in
      (a ∷ pre, b, post, ap (λ t. a ∷ t) split, failed, more)
]

AtLeast-bound : (n : ℕ) (attempts : List AttemptRecord) → AtLeast n attempts → n ≤ failures attempts
unfolding failures
AtLeast-bound zero attempts h = omega arith
AtLeast-bound (suc n) attempts (pre, a, post, split, failed, more) = rw split (
    ground (
      arith,
      failures-append pre (a ∷ post),
      (semantic_failure-HasFailed a).1 failed,
      AtLeast-bound n post more,
    ))

pub semantic_failures-AtLeast :
    (n : ℕ) (attempts : List AttemptRecord) → (n ≤ semantic_failures attempts) ↔ AtLeast n attempts
unfolding semantic_failures failures
semantic_failures-AtLeast n attempts = (AtLeast-found n attempts, AtLeast-bound n attempts)
