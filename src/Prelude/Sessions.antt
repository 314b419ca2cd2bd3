-- ===== src/Prelude/Sessions.antt =====
-- Steps one after the other, and the phases of sessions that run at once.
use Prim.Native.Nat.{ℕ, ◌<◌}
use mathlib.Core.Path.{◌≡◌}
use mathlib.Core.Logic.{◌⊎◌}
use native.Mathlib.Omega.{arith}
use expire_share_api.Prelude.Tests.{eqb, if◌then◌else◌}

-- The states that steps of `R` lead to.
pub data Star {A : Type 0} (R : A → A → Type 0) (s : A) : A → Type 0 where
  start : Star R s s
  step : {t u : A} → Star R s t → R t u → Star R s u

module _ {A : Type 0} where
  -- Session `i` enters the phase `q`.
  abbrev pub set_phase : ℕ → A → (ℕ → A) → ℕ → A
  set_phase i q phase j = if eqb j i then q else phase j

  pub set_phase-here : (i : ℕ) (q : A) (phase : ℕ → A) → set_phase i q phase i ≡ q
  set_phase-here i q phase = ground arith

  pub set_phase-there :
      (i j : ℕ) (q : A) (phase : ℕ → A) → (j < i) ⊎ (i < j) → set_phase i q phase j ≡ phase j
  set_phase-there i j q phase h = ground arith
