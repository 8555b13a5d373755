-- ===== src/Prelude/Calls.antt =====
-- Calls of code that is not modelled.
use mathlib.Core.Path.{◌≡◌, refl}
use mathlib.Core.Logic.{◌⊎◌, inl, inr}

-- A fallible call with effects: what it gives back, and the state of the world after it.
pub data Outcome {ℓ} (E : Type 0) (W : Type 0) (A : Type ℓ) : Type ℓ where
  done : A → W → Outcome E W A
  failed : E → W → Outcome E W A

pub Outcome-cases {ℓ} :
    {E W : Type 0} {A : Type ℓ} (o : Outcome E W A)
    → ((a : A) × (w : W) × (o ≡ done a w)) ⊎ ((e : E) × (w : W) × (o ≡ failed e w))
Outcome-cases (done a w) = inl (a, w, refl)
Outcome-cases (failed e w) = inr (e, w, refl)
