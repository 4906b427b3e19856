-- ===== src/Prelude/Existence.antt =====
-- A predicate of some item of a list.
use mathlib.Core.Path.{◌≡◌, refl}
use mathlib.Core.Logic.{◌↔◌, inl, inr}
use mathlib.Core.Bool.{Bool, true, ◌||◌}
use mathlib.Core.List.{List, [], ◌∷◌}
use native.Mathlib.Omega.{arith}
use qa_agent.Prelude.Tests.{Bool-cases}
use qa_agent.Prelude.Lists.{any, All}

pub data Exists {ℓ κ} {A : Type ℓ} (P : A → Type κ) : List A → Type (ℓ ⊔ κ) where
  here : {x : A} {xs : List A} → P x → Exists P (x ∷ xs)
  there : {x : A} {xs : List A} → Exists P xs → Exists P (x ∷ xs)

module _ {ℓ κ} {A : Type ℓ} {P : A → Type κ} where
  pub any-Exists :
      (p : A → Bool) (xs : List A)
      → ((x : A) → (p x ≡ true) ↔ P x)
      → (any p xs ≡ true) ↔ Exists P xs
  any-Exists p [] h = ((λ e. absurd (ground (arith, e))), λ e. elim e [ ])
  any-Exists p (x ∷ xs) h =
      let more = any-Exists p xs h in
      (
        (λ e. elim (Bool-cases (p x)) [
          | inl good ↦ Exists.here ((h x).0 good)
          | inr bad ↦ Exists.there (more.0 (ground (arith, bad, e)))
        ]),
        (λ e. back e more.1),
      )
    where
      back : Exists P (x ∷ xs) → (Exists P xs → any p xs ≡ true) → (p x || any p xs) ≡ true
      back (Exists.here e) k = ground (arith, (h x).1 e)
      back (Exists.there e) k = ground (arith, k e)

  -- The item itself, with its place.
  pub Exists-witness : (xs : List A) → Exists P xs → (x : A) × (P x) × Exists (λ y. y ≡ x) xs
  Exists-witness [] e = elim e [ ]
  Exists-witness (x ∷ xs) (Exists.here e) = (x, e, Exists.here refl)
  Exists-witness (x ∷ xs) (Exists.there e) =
      let (y, k, at) = Exists-witness xs e in (y, k, Exists.there at)

module _ {ℓ κ μ} {A : Type ℓ} {P : A → Type κ} {Q : A → Type μ} where
  pub Exists-map : (xs : List A) → ((x : A) → P x → Q x) → Exists P xs → Exists Q xs
  Exists-map [] f e = elim e [ ]
  Exists-map (x ∷ xs) f (Exists.here e) = Exists.here (f x e)
  Exists-map (x ∷ xs) f (Exists.there e) = Exists.there (Exists-map xs f e)

  pub Exists-All :
      (xs : List A) → All Q xs → Exists P xs → (x : A) × (P x) × (Q x) × Exists (λ y. y ≡ x) xs
  Exists-All [] h e = elim e [ ]
  Exists-All (x ∷ xs) h (Exists.here e) = (x, e, h.0, Exists.here refl)
  Exists-All (x ∷ xs) h (Exists.there e) =
      let (y, k, q, at) = Exists-All xs h.1 e in (y, k, q, Exists.there at)
