-- ===== src/Effect/Ensures.antt =====
-- What holds of every value that a call returns, whatever the world does.
use qa_agent.Prelude.{◌≡◌, refl, ◌∙◌, Bool, true, false, Option, none, some, subst, if◌then◌else◌}
use qa_agent.Effect.{
  Outcome, done, threw, interrupted, Eff, ◌>>=◌, pure, raise, pause, need, try_catch,
}

pub record Ensures {W A : Type 0} (P : A → Type 0) (m : Eff W A) : Type 0 where
  pub at : (w : W) (a : A) (w' : W) → m w ≡ done a w' → P a

module _ {W A : Type 0} {P : A → Type 0} where
  pub Ensures-pure : (a : A) → P a → Ensures {W = W} P (pure a)
  unfolding pure
  Ensures-pure a h = record { at = λ w b w' e. let same : a ≡ b = cc in subst P same h }

  pub Ensures-raise : Ensures {W = W} P raise
  unfolding raise
  Ensures-raise = record { at = λ w b w' e. cc }

  pub Ensures-pause : Ensures {W = W} P pause
  unfolding pause
  Ensures-pause = record { at = λ w b w' e. cc }

  pub Ensures-if :
      (b : Bool) (m n : Eff W A)
      → (b ≡ true → Ensures P m)
      → (b ≡ false → Ensures P n)
      → Ensures P (if b then m else n)
  Ensures-if true m n hm hn = hm refl
  Ensures-if false m n hm hn = hn refl

module _ {W A B : Type 0} {P : A → Type 0} {Q : B → Type 0} where
  -- The rest of a block may use what the first call ensures.
  pub Ensures-bind_with :
      (m : Eff W B) (f : B → Eff W A)
      → Ensures Q m
      → ((b : B) → Q b → Ensures P (f b))
      → Ensures P (m >>= f)
  unfolding ◌>>=◌
  Ensures-bind_with m f hm hf = record { at = λ w a w' e. go (m w) refl e }
    where
      go :
          {w : W} {a : A} {w' : W} (o : Outcome W B)
          → m w ≡ o
          → elim o [ done b v ↦ f b v | threw v ↦ threw v | interrupted v ↦ interrupted v ]
            ≡ done a w'
          → P a
      go {w} {a} {w'} (done b v) at e = (hf b (hm.at w b v at)).at v a w' e
      go (threw v) at e = cc
      go (interrupted v) at e = cc

module _ {W A B : Type 0} {P : A → Type 0} where
  pub Ensures-bind :
      (m : Eff W B) (f : B → Eff W A) → ((b : B) → Ensures P (f b)) → Ensures P (m >>= f)
  Ensures-bind m f h =
      Ensures-bind_with {Q = λ b. Unit} m f (record { at = λ w b w' e. tt }) (λ b _. h b)

module _ {W A : Type 0} {P Q : A → Type 0} where
  pub Ensures-map : (m : Eff W A) → ((a : A) → P a → Q a) → Ensures P m → Ensures Q m
  Ensures-map m f h = record { at = λ w a w' e. f a (h.at w a w' e) }

module _ {W A : Type 0} {P : A → Type 0} where
  pub Ensures-try :
      (m handler : Eff W A) → Ensures P m → Ensures P handler → Ensures P (try_catch m handler)
  unfolding try_catch
  Ensures-try m handler hm hh = record { at = λ w a w' e. go (m w) refl e }
    where
      go :
          {w : W} {a : A} {w' : W} (o : Outcome W A)
          → m w ≡ o
          → elim o [ done b v ↦ done b v | threw v ↦ handler v | interrupted v ↦ interrupted v ]
            ≡ done a w'
          → P a
      go {w} {a} {w'} (done b v) at e = hm.at w a w' (at ∙ e)
      go {w} {a} {w'} (threw v) at e = hh.at v a w' e
      go (interrupted v) at e = cc

module _ {W A : Type 0} where
  -- A value that a call returns is one that it returns in some world.
  pub Ensures-ran : (m : Eff W A) → Ensures (λ a. (w : W) × (w' : W) × (m w ≡ done a w')) m
  Ensures-ran m = record { at = λ w a w' e. (w, w', e) }

  pub Ensures-need : (o : Option A) → Ensures {W = W} (λ a. o ≡ some a) (need o)
  unfolding need pure raise
  Ensures-need none = record { at = λ w a w' e. cc }
  Ensures-need (some b) = record { at = λ w a w' e. cc }

module _ {W A B : Type 0} {P : A → Type 0} where
  -- A call that depends on a value that may be missing.
  pub Ensures-option :
      (o : Option B) (m : Eff W A) (f : B → Eff W A)
      → (o ≡ none → Ensures P m)
      → ((b : B) → o ≡ some b → Ensures P (f b))
      → Ensures P (elim o [ none ↦ m | some b ↦ f b ])
  Ensures-option none m f hm hf = hm refl
  Ensures-option (some b) m f hm hf = hf b refl
