-- ===== src/Effect.antt =====
-- Asynchronous calls that change the world outside, may throw, and may pause for a human.
pub mod Ensures
pub mod Leaves
use qa_agent.Prelude.{String, ◌≡◌, ap, Option, none, some}

pub data Outcome (W A : Type 0) : Type 0 where
  done : A → W → Outcome W A
  threw : W → Outcome W A
  interrupted : W → Outcome W A

abbrev pub Eff : Type 0 → Type 0 → Type 0
Eff W A = W → Outcome W A

infixl 5 ◌>>=◌ ◌>>◌
unfoldable pub ◌>>=◌ : {W A B : Type 0} → Eff W A → (A → Eff W B) → Eff W B
◌>>=◌ m f w = elim (m w) [
  | done a w' ↦ f a w'
  | threw w' ↦ threw w'
  | interrupted w' ↦ interrupted w'
]

pub bind_done :
    {W A B : Type 0} (m : Eff W A) (f : A → Eff W B) (w : W) {a : A} {v : W}
    → m w ≡ done a v
    → (m >>= f) w ≡ f a v
unfolding ◌>>=◌
bind_done {B = B} m f w h =
    ap {B = Outcome _ B}
      (λ o. elim o [ done b v ↦ f b v | threw v ↦ threw v | interrupted v ↦ interrupted v ]) h

abbrev pub ◌>>◌ : {W A B : Type 0} → Eff W A → Eff W B → Eff W B
m >> k = m >>= λ _. k

unfoldable pub pure : {W A : Type 0} → A → Eff W A
pure a w = done a w

unfoldable pub raise : {W A : Type 0} → Eff W A
raise w = threw w

unfoldable pub pause : {W A : Type 0} → Eff W A
pause w = interrupted w

-- A value that the code takes to be there: without it the next property access throws.
unfoldable pub need : {W A : Type 0} → Option A → Eff W A
unfolding pure raise
need none = raise
need (some a) = pure a

-- `try { … } catch { … }`
unfoldable pub try_catch : {W A : Type 0} → Eff W A → Eff W A → Eff W A
try_catch m handler w = elim (m w) [
  | done a w' ↦ done a w'
  | threw w' ↦ handler w'
  | interrupted w' ↦ interrupted w'
]

-- How a call ends whose errors are caught: with a value, or with the message of an error.
pub data Settled (A : Type 0) : Type 0 where
  fulfilled : A → Settled A
  rejected : String → Settled A

abbrev pub Call : Type 0 → Type 0 → Type 0
Call W A = Eff W (Settled A)
