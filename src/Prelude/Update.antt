-- ===== src/Prelude/Update.antt =====
-- Arrays and finite maps as functions, changed at one argument.
use Prim.Native.Nat.{ℕ}
use mathlib.Core.Path.{◌≡◌}
use mathlib.Core.Logic.{◌≢◌}
use native.Mathlib.Omega.{arith}
use sbfs.Prelude.Tests.{◌==◌, if◌then◌else◌}

abbrev pub update {ℓ} : {A : Type ℓ} → (ℕ → A) → ℕ → A → ℕ → A
update f i v j = if i == j then v else f j

module _ {ℓ} {A : Type ℓ} (f : ℕ → A) where
  pub update_self : (i : ℕ) (v : A) → update f i v i ≡ v
  update_self i v = ground arith

  pub update_ne : {i j : ℕ} (v : A) → i ≢ j → update f i v j ≡ f j
  update_ne v h = ground arith
