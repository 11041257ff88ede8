-- ===== src/Prelude/Monad.antt =====
-- Fallible functions on a state. `none` stands for the source's `kFail`: the caller sees the
-- failure, and what the function had already changed stays changed.
use mathlib.Core.Option.{Option, none, some}

abbrev pub M : Type 0 → Type 0 → Type 0
M S A = S → Option A × S

abbrev pub and_then : {S A B : Type 0} → Option A × S → (A → M S B) → Option B × S
and_then (none, s) k = (none, s)
and_then (some a, s) k = k a s

infixl 5 ◌>>=◌ ◌>>◌
abbrev pub ◌>>=◌ : {S A B : Type 0} → M S A → (A → M S B) → M S B
◌>>=◌ m k s = and_then (m s) k

abbrev pub ◌>>◌ : {S B : Type 0} → M S (Unit {0}) → M S B → M S B
m >> k = m >>= λ _. k

abbrev pub pure : {S A : Type 0} → A → M S A
pure a s = (some a, s)

abbrev pub fail : {S A : Type 0} → M S A
fail s = (none, s)
