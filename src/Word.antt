-- ===== src/Word.antt =====
-- Machine words as native numbers: single bits, and what `|` and `& ~` do to them.
pub mod Digits
use native.Mathlib.Nat.{pow-suc, one-le-pow}
use sbfs.Prelude.{
  ℕ, zero, suc, ◌+◌, ◌-◌, ◌*◌, ◌/◌, ◌%◌, ◌^◌, ◌≤◌, ◌<◌, ◌≡◌, min, max, ◌∙◌, ap, Bool, true, false,
  arith, ◌==◌, if◌then◌else◌, bit_and, bit_or,
}
use sbfs.Word.Digits.{bit_or_digit, bit_and_digit, bit_or-zero, bit_and-ones}

-- Bit `k` of a word.
unfoldable pub test_bit : ℕ → ℕ → Bool
test_bit x zero = x % 2 == 1
test_bit x (suc k) = test_bit (x / 2) k

-- All ones but bit `k`: `~(1ul << k)` in a word of `w` bits.
abbrev pub mask : ℕ → ℕ → ℕ
mask w k = 2 ^ w - 1 - 2 ^ k

or_suc :
    (k x : ℕ)
    → (bit_or x (2 ^ suc k) / 2 ≡ bit_or (x / 2) (2 ^ k)) × (bit_or x (2 ^ suc k) % 2 ≡ x % 2)
or_suc k x =
    let half : 2 ^ suc k / 2 ≡ 2 ^ k = omega (arith, pow-suc 2 k) in
    let d : bit_or x (2 ^ suc k) ≡ bit_or (x / 2) (2 ^ k) * 2 + max (x % 2) (2 ^ suc k % 2) =
      rw half at (bit_or_digit x (2 ^ suc k)) in
    (omega (arith, d, pow-suc 2 k), omega (arith, d, pow-suc 2 k))

or_one : (x : ℕ) → (bit_or x 1 / 2 ≡ x / 2) × (bit_or x 1 % 2 ≡ 1)
or_one x = omega (arith, bit_or_digit x 1, bit_or-zero (x / 2))

-- `x | 1ul << k` sets bit `k` and leaves the others.
pub test_bit-bit_or :
    (k m x : ℕ) → test_bit (bit_or x (2 ^ k)) m ≡ (if k == m then true else test_bit x m)
unfolding test_bit
test_bit-bit_or zero zero x = rw (or_one x).1
test_bit-bit_or zero (suc m) x = ap (λ y. test_bit y m) (or_one x).0 ∙ (ground arith)
test_bit-bit_or (suc k) zero x = ap (λ y. y == 1) (or_suc k x).1 ∙ (ground arith)
test_bit-bit_or (suc k) (suc m) x =
    ap (λ y. test_bit y m) (or_suc k x).0 ∙ test_bit-bit_or k m (x / 2) ∙ (ground arith)

pub bit_or-lt : (w k x : ℕ) → k < w → x < 2 ^ w → bit_or x (2 ^ k) < 2 ^ w
bit_or-lt zero k x h b = absurd (omega arith)
bit_or-lt (suc w) zero x h b = omega (arith, or_one x, pow-suc 2 w)
bit_or-lt (suc w) (suc k) x h b = omega (
  arith,
  (or_suc k x).0,
  bit_or-lt w k (x / 2) (omega arith) (omega (arith, pow-suc 2 w)),
  pow-suc 2 w,
)

pow_le : (w k : ℕ) → k < w → 2 ^ k + 1 ≤ 2 ^ w
pow_le zero k h = absurd (omega arith)
pow_le (suc w) zero h = omega (arith, pow-suc 2 w, one-le-pow w 2)
pow_le (suc w) (suc k) h = omega (arith, pow_le w k (omega arith), pow-suc 2 w, pow-suc 2 k)

and_suc :
    (w k x : ℕ)
    → k < w
    → (bit_and x (mask (suc w) (suc k)) / 2 ≡ bit_and (x / 2) (mask w k))
      × (bit_and x (mask (suc w) (suc k)) % 2 ≡ x % 2)
and_suc w k x h =
    let half : mask (suc w) (suc k) / 2 ≡ mask w k =
      omega (arith, pow-suc 2 k, pow-suc 2 w, pow_le w k h) in
    let d : bit_and x (mask (suc w) (suc k))
        ≡ bit_and (x / 2) (mask w k) * 2 + min (x % 2) (mask (suc w) (suc k) % 2) =
      rw half at (bit_and_digit x (mask (suc w) (suc k))) in
    (
      omega (arith, d, pow-suc 2 k, pow-suc 2 w, pow_le w k h),
      omega (arith, d, pow-suc 2 k, pow-suc 2 w, pow_le w k h),
    )

and_zero :
    (w x : ℕ)
    → x < 2 ^ suc w
    → (bit_and x (mask (suc w) 0) / 2 ≡ x / 2) × (bit_and x (mask (suc w) 0) % 2 ≡ 0)
and_zero w x h =
    let half : mask (suc w) 0 / 2 ≡ 2 ^ w - 1 = omega (arith, pow-suc 2 w, one-le-pow w 2) in
    let d : bit_and x (mask (suc w) 0)
        ≡ bit_and (x / 2) (2 ^ w - 1) * 2 + min (x % 2) (mask (suc w) 0 % 2) =
      rw half at (bit_and_digit x (mask (suc w) 0)) in
    let same = bit_and-ones w (x / 2) (omega (arith, pow-suc 2 w)) in
    (
      omega (arith, d, same, pow-suc 2 w, one-le-pow w 2),
      omega (arith, d, same, pow-suc 2 w, one-le-pow w 2),
    )

-- `x & ~(1ul << k)` clears bit `k` and leaves the others.
pub test_bit-bit_and :
    (w k m x : ℕ)
    → k < w
    → x < 2 ^ w
    → test_bit (bit_and x (mask w k)) m ≡ (if k == m then false else test_bit x m)
unfolding test_bit
test_bit-bit_and zero k m x h b = absurd (omega arith)
test_bit-bit_and (suc w) zero zero x h b = rw (and_zero w x b).1
test_bit-bit_and (suc w) zero (suc m) x h b =
    ap (λ y. test_bit y m) (and_zero w x b).0 ∙ (ground arith)
test_bit-bit_and (suc w) (suc k) zero x h b =
    ap (λ y. y == 1) (and_suc w k x (omega arith)).1 ∙ (ground arith)
test_bit-bit_and (suc w) (suc k) (suc m) x h b =
    ap (λ y. test_bit y m) (and_suc w k x (omega arith)).0
    ∙ test_bit-bit_and w k m (x / 2) (omega arith) (omega (arith, pow-suc 2 w))
    ∙ (ground arith)

pub bit_and-lt : (w k x : ℕ) → k < w → x < 2 ^ w → bit_and x (mask w k) < 2 ^ w
bit_and-lt zero k x h b = absurd (omega arith)
bit_and-lt (suc w) zero x h b = omega (arith, and_zero w x b)
bit_and-lt (suc w) (suc k) x h b = omega (
  arith,
  (and_suc w k x (omega arith)).0,
  bit_and-lt w k (x / 2) (omega arith) (omega (arith, pow-suc 2 w)),
  pow-suc 2 w,
)
