-- ===== src/Prelude/Parts.antt =====
-- Parts of texts, and the items of a list that pass a test.
use mathlib.Core.Path.{◌≡◌, refl, ap}
use mathlib.Core.Logic.{◌↔◌, inl, inr}
use mathlib.Core.Bool.{Bool, true, ◌&&◌}
use mathlib.Core.List.{List, [], ◌∷◌, ◌++◌}
use native.Mathlib.Omega.{arith}
use qa_agent.Prelude.Tests.{Bool-cases}
use qa_agent.Prelude.Lists.{any, All, select}
use qa_agent.Prelude.Texts.{Text, has_prefix, has_part, has_prefix-append}

pub prefix_rest : (p s : Text) → has_prefix p s ≡ true → (t : Text) × (s ≡ p ++ t)
prefix_rest [] s h = (s, refl)
prefix_rest (c ∷ p) [] h = absurd (ground (arith, h))
prefix_rest (c ∷ p) (d ∷ s) h =
    let (t, e) = prefix_rest p s (ground (arith, h)) in (t, ground (arith, h, e))

-- A text stands somewhere in another one.
abbrev pub Contains : Text → Text → Type 0
Contains part s = (pre : Text) × (post : Text) × (s ≡ pre ++ (part ++ post))

has_part-found : (part s : Text) → has_part part s ≡ true → Contains part s
has_part-found part [] h = let (post, e) = prefix_rest part [] h in ([], post, e)
has_part-found part (c ∷ s) h = elim (Bool-cases (has_prefix part (c ∷ s))) [
  | inl e ↦ let (post, split) = prefix_rest part (c ∷ s) e in ([], post, split)
  | inr e ↦
      let (pre, post, split) = has_part-found part s (ground (arith, e, h)) in
      (c ∷ pre, post, ap (λ t. c ∷ t) split)
]

has_part-prefix : (part s : Text) → has_prefix part s ≡ true → has_part part s ≡ true
has_part-prefix part [] h = h
has_part-prefix part (c ∷ s) h = ground (arith, h)

has_part-append : (part pre post : Text) → has_part part (pre ++ (part ++ post)) ≡ true
has_part-append part [] post = has_part-prefix part (part ++ post) (has_prefix-append part post)
has_part-append part (c ∷ pre) post = ground (arith, has_part-append part pre post)

pub has_part-Contains : (part s : Text) → (has_part part s ≡ true) ↔ Contains part s
has_part-Contains part s =
    (has_part-found part s, (λ (pre, post, e). rw e (has_part-append part pre post)))

module _ {A : Type 0} (p : A → Bool) where
  pub All-select :
      (P : A → Type 0) (xs : List A) → All P (select p xs) ↔ All (λ x. p x ≡ true → P x) xs
  All-select P [] = ((λ _. tt), (λ _. tt))
  All-select P (x ∷ xs) =
      let more = All-select P xs in
      elim (Bool-cases (p x)) [
        | inl e ↦ rw e ((λ (h, t). ((λ _. h), more.0 t)), (λ (f, t). (f refl, more.1 t)))
        | inr e ↦ rw e ((λ t. ((λ k. cc), more.0 t)), (λ (_, t). more.1 t))
      ]

  pub any-select-and : (q : A → Bool) (xs : List A) → any q (select p xs) ≡ any (λ x. p x && q x) xs
  any-select-and q [] = refl
  any-select-and q (x ∷ xs) = ground (arith, any-select-and q xs)
