-- ===== src/Effect/Leaves.antt =====
-- What holds of every value that a call returns and of the world that it leaves.
use qa_agent.Prelude.{◌≡◌, refl, Bool, true, false, Option, none, some, subst, if◌then◌else◌}
use qa_agent.Effect.{Outcome, done, threw, interrupted, Eff, ◌>>=◌, pure}
use qa_agent.Effect.Ensures.{Ensures}

pub record Leaves {W A : Type 0} (P : A → W → Type 0) (m : Eff W A) : Type 0 where
  pub at : (w : W) (a : A) (w' : W) → m w ≡ done a w' → P a w'

-- The two parts of a block that returns.
pub bind_parts :
    {W A B : Type 0} (m : Eff W B) (f : B → Eff W A) (w : W) {a : A} {w' : W}
    → (m >>= f) w ≡ done a w'
    → (b : B) × (v : W) × (m w ≡ done b v) × (f b v ≡ done a w')
unfolding ◌>>=◌
bind_parts {W} {A} {B} m f w {a} {w'} e = go (m w) refl e
  where
    go :
        (o : Outcome W B)
        → m w ≡ o
        → elim o [ done b v ↦ f b v | threw v ↦ threw v | interrupted v ↦ interrupted v ]
          ≡ done a w'
        → (b : B) × (v : W) × (m w ≡ done b v) × (f b v ≡ done a w')
    go (done b v) at e = (b, v, at, e)
    go (threw v) at e = cc
    go (interrupted v) at e = cc

module _ {W A : Type 0} {P : A → W → Type 0} where
  pub Leaves-pure : (a : A) → ((w : W) → P a w) → Leaves P (pure a)
  unfolding pure
  Leaves-pure a h = record {
    at = λ w b w' e. let same : a ≡ b = cc in subst (λ c. P c w') same (h w');
  }

  pub Leaves-if :
      (b : Bool) (m n : Eff W A)
      → (b ≡ true → Leaves P m)
      → (b ≡ false → Leaves P n)
      → Leaves P (if b then m else n)
  Leaves-if true m n hm hn = hm refl
  Leaves-if false m n hm hn = hn refl

  pub Leaves-Ensures : (m : Eff W A) → Ensures (λ a. (w : W) → P a w) m → Leaves P m
  Leaves-Ensures m h = record { at = λ w a w' e. h.at w a w' e w' }

  pub Ensures-Leaves :
      {Q : A → Type 0} (m : Eff W A) → ((a : A) (w : W) → P a w → Q a) → Leaves P m → Ensures Q m
  Ensures-Leaves m f h = record { at = λ w a w' e. f a w' (h.at w a w' e) }

module _ {W A B : Type 0} {P : A → W → Type 0} where
  pub Leaves-bind_with :
      {Q : B → Type 0} (m : Eff W B) (f : B → Eff W A)
      → Ensures Q m
      → ((b : B) → Q b → Leaves P (f b))
      → Leaves P (m >>= f)
  Leaves-bind_with m f hm hf = record {
    at = λ w a w' e.
        let (b, v, ran, rest) = bind_parts m f w e in (hf b (hm.at w b v ran)).at v a w' rest;
  }

  pub Leaves-bind :
      (m : Eff W B) (f : B → Eff W A) → ((b : B) → Leaves P (f b)) → Leaves P (m >>= f)
  Leaves-bind m f h = record {
    at = λ w a w' e. let (b, v, ran, rest) = bind_parts m f w e in (h b).at v a w' rest;
  }

  -- The rest of a block may use what the first call ensures, and the world that it leaves.
  pub Leaves-seq :
      {Q : B → W → Type 0} (m : Eff W B) (f : B → Eff W A)
      → Leaves Q m
      → ((b : B) (v : W) → Q b v → (a : A) (w' : W) → f b v ≡ done a w' → P a w')
      → Leaves P (m >>= f)
  Leaves-seq m f hm hf = record {
    at = λ w a w' e.
        let (b, v, ran, rest) = bind_parts m f w e in hf b v (hm.at w b v ran) a w' rest;
  }

  -- A block that only changes the value at its end.
  pub Leaves-then :
      (m : Eff W B) (f : B → A) → Leaves (λ b w. P (f b) w) m → Leaves P (m >>= λ b. pure (f b))
  unfolding pure
  Leaves-then m f h = record {
    at = λ w a w' e.
        let (b, v, ran, rest) = bind_parts m (λ c. pure (f c)) w e in
        let same : f b ≡ a = cc in
        let here : v ≡ w' = cc in
        subst (λ c. P c w') same (subst (λ u. P (f b) u) here (h.at w b v ran));
  }

  pub Leaves-option :
      (o : Option B) (m : Eff W A) (f : B → Eff W A)
      → Leaves P m
      → ((b : B) → o ≡ some b → Leaves P (f b))
      → Leaves P (elim o [ none ↦ m | some b ↦ f b ])
  Leaves-option none m f hm hf = hm
  Leaves-option (some b) m f hm hf = hf b refl

module _ {W A : Type 0} {P Q : A → W → Type 0} where
  pub Leaves-map : (m : Eff W A) → ((a : A) (w : W) → P a w → Q a w) → Leaves P m → Leaves Q m
  Leaves-map m f h = record { at = λ w a w' e. f a w' (h.at w a w' e) }
