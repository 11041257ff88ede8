-- ===== src/Bitmap/Scan.antt =====
-- The scan of one bitmap block: it stops at the first bit that is zero.
use native.Mathlib.Nat.{pow-suc, one-le-pow}
use sbfs.Prelude.{
  ℕ, zero, suc, ◌+◌, ◌-◌, ◌/◌, ◌^◌, ◌<◌, ◌≡◌, refl, ap, ◌∙◌, true, false, none, some, ◌==◌, arith,
  Bool-cases, ==_iff, inl, inr,
}
use sbfs.Block.{Block}
use sbfs.Word.{test_bit}
use sbfs.Bitmap.{ctz, leading_zero, scan, word}

-- All bits below `k` are ones.
abbrev pub OnesBelow : ℕ → ℕ → Type 0
OnesBelow x k = (m : ℕ) → m < k → test_bit x m ≡ true

ctz-first :
    (w k x : ℕ)
    → x < 2 ^ w
    → k < w
    → test_bit x k ≡ false
    → OnesBelow x k
    → ctz w (2 ^ w - 1 - x) ≡ k
unfolding ctz test_bit
ctz-first zero k x b h z o = absurd (omega arith)
ctz-first (suc w) zero x b h z o = ground (arith, pow-suc 2 w)
ctz-first (suc w) (suc k) x b h z o =
    let half : (2 ^ suc w - 1 - x) / 2 ≡ 2 ^ w - 1 - x / 2 = omega (arith, pow-suc 2 w) in
    ground (
      arith,
      o 0 (omega arith),
      pow-suc 2 w,
      ctz-first w k (x / 2) (omega (arith, pow-suc 2 w)) (omega arith) z
          (λ m l. o (suc m) (omega arith)),
    )

ones-full : (w x : ℕ) → x < 2 ^ w → OnesBelow x w → x ≡ 2 ^ w - 1
unfolding test_bit
ones-full zero x b o = omega arith
ones-full (suc w) x b o =
    let ih = ones-full w (x / 2) (omega (arith, pow-suc 2 w)) (λ m l. o (suc m) (omega arith)) in
    ground (arith, o 0 (omega arith), pow-suc 2 w, ih, one-le-pow w 2)

pub full-ones : (w m : ℕ) → m < w → test_bit (2 ^ w - 1) m ≡ true
unfolding test_bit
full-ones zero m h = absurd (omega arith)
full-ones (suc w) zero h = ground (arith, pow-suc 2 w, one-le-pow w 2)
full-ones (suc w) (suc m) h =
    let half : (2 ^ suc w - 1) / 2 ≡ 2 ^ w - 1 = omega (arith, pow-suc 2 w, one-le-pow w 2) in
    ap (λ y. test_bit y m) half ∙ full-ones w m (omega arith)

pub leading_zero-first :
    (k x : ℕ) → x < 2 ^ 64 → k < 64 → test_bit x k ≡ false → OnesBelow x k → leading_zero x ≡ some k
unfolding leading_zero
leading_zero-first k x b h z o = elim (Bool-cases (x == 2 ^ 64 - 1)) [
  | inl e ↦
      let all : test_bit x k ≡ true =
        ap (λ y. test_bit y k) ((==_iff x (2 ^ 64 - 1)).0 e) ∙ full-ones 64 k h in
      cc
  | inr n ↦ rw n (ap some (ctz-first 64 k x b h z o))
]

pub leading_zero-full : (x : ℕ) → x < 2 ^ 64 → OnesBelow x 64 → leading_zero x ≡ none
unfolding leading_zero
leading_zero-full x b o =
    let e : (x == 2 ^ 64 - 1) ≡ true = (==_iff x (2 ^ 64 - 1)).1 (ones-full 64 x b o) in rw e

-- The first `t` words are full, and the next has its first zero at bit `k`.
pub scan-first :
    (n j t k : ℕ) (b : Block)
    → t < n
    → ((i : ℕ) → i < t → leading_zero (word b (j + i)) ≡ none)
    → leading_zero (word b (j + t)) ≡ some k
    → scan n j b ≡ some (j + t, k)
unfolding scan
scan-first zero j t k b h full found = absurd (omega arith)
scan-first (suc n) j zero k b h full found =
    let e : j + 0 ≡ j = omega arith in
    let here : leading_zero (word b j) ≡ some k = rw e at found in rw (e, here, scan)
scan-first (suc n) j (suc t) k b h full found =
    let here : leading_zero (word b j) ≡ none =
      let e : j + 0 ≡ j = omega arith in rw e at (full 0 (omega arith)) in
    let e : j + suc t ≡ j + 1 + t = omega arith in
    rw (here, scan, e)
      (scan-first n (j + 1) t k b (omega arith)
        (λ i l. let d : j + suc i ≡ j + 1 + i = omega arith in rw d at (full (suc i) (omega arith)))
        (rw e at found))

pub scan-full :
    (n j : ℕ) (b : Block)
    → ((i : ℕ) → i < n → leading_zero (word b (j + i)) ≡ none)
    → scan n j b ≡ none
unfolding scan
scan-full zero j b full = refl
scan-full (suc n) j b full =
    let here : leading_zero (word b j) ≡ none =
      let e : j + 0 ≡ j = omega arith in rw e at (full 0 (omega arith)) in
    rw (here, scan)
      (scan-full n (j + 1) b (λ i l.
        let d : j + suc i ≡ j + 1 + i = omega arith in rw d at (full (suc i) (omega arith))))
