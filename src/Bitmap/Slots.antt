-- ===== src/Bitmap/Slots.antt =====
-- A bitmap block as its 32768 slots: the scan for a free one, and the change of one slot.
use sbfs.Prelude.{
  ℕ, ◌+◌, ◌*◌, ◌/◌, ◌%◌, ◌^◌, ◌<◌, ◌≡◌, ap, ◌∙◌, sym, Bool, true, false, none, some, ◌==◌,
  if◌then◌else◌, arith, Bool-cases, inl, inr, ==_iff, bit_or, bit_and,
}
use sbfs.Block.{Block, IsBytes, get_le-lt, get_le-put_le_self, get_le-put_le_ne}
use sbfs.Word.{test_bit, mask, test_bit-bit_or, test_bit-bit_and, bit_or-lt, bit_and-lt}
use sbfs.Bitmap.{leading_zero, scan, word, set_word, clear_slot, slot_per_block, words_per_block}
use sbfs.Bitmap.Scan.{leading_zero-first, leading_zero-full, scan-first, scan-full}

-- Whether a slot of a block is taken.
abbrev pub taken : Block → ℕ → Bool
taken b n = test_bit (word b (n / 64)) (n % 64)

pub word-lt : (b : Block) (j : ℕ) → IsBytes b → word b j < 2 ^ 64
word-lt b j h = get_le-lt 8 b (8 * j) h

pub word-set_word :
    (b : Block) (j i x : ℕ)
    → x < 2 ^ 64
    → word (set_word b j x) i ≡ (if j == i then x else word b i)
word-set_word b j i x h = elim (Bool-cases (j == i)) [
  | inl e ↦ rw (e, ← (==_iff j i).0 e) (get_le-put_le_self 8 b (8 * j) x h)
  | inr n ↦ rw n (get_le-put_le_ne 8 8 b (8 * j) x (8 * i) (ground arith))
]

-- Changing one word changes one slot, where the word's bits change so.
taken-set_word :
    (b : Block) (n m x : ℕ) (v : Bool)
    → x < 2 ^ 64
    → ((k : ℕ) → test_bit x k ≡ (if n % 64 == k then v else test_bit (word b (n / 64)) k))
    → taken (set_word b (n / 64) x) m ≡ (if n == m then v else taken b m)
taken-set_word b n m x v h bits =
    ap (λ y. test_bit y (m % 64)) (word-set_word b (n / 64) (m / 64) x h)
    ∙ (elim (Bool-cases (n / 64 == m / 64)) [
      | inl e ↦ rw e (
          bits (m % 64)
          ∙ ap (λ y. if n % 64 == m % 64 then v else test_bit (word b y) (m % 64))
              ((==_iff (n / 64) (m / 64)).0 e)
          ∙ ap (λ t. if t then v else taken b m) (same e))
      | inr d ↦ let e : (n == m) ≡ false = ground arith in rw (d, e)
    ])
  where
    same : (n / 64 == m / 64) ≡ true → (n % 64 == m % 64) ≡ (n == m)
    same e = ground arith

taken_words : (b : Block) (j k : ℕ) → k < 64 → taken b (j * 64 + k) ≡ test_bit (word b j) k
taken_words b j k h =
    let e : (j * 64 + k) / 64 ≡ j = omega arith in
    let d : (j * 64 + k) % 64 ≡ k = omega arith in rw (e, d)

full_word :
    (b : Block) (i : ℕ)
    → IsBytes b
    → ((m : ℕ) → m < i * 64 + 64 → taken b m ≡ true)
    → leading_zero (word b (0 + i)) ≡ none
full_word b i h o =
    let e : 0 + i ≡ i = omega arith in
    rw e (
      leading_zero-full (word b i) (word-lt b i h)
        (λ k lk. sym (taken_words b i k lk) ∙ o (i * 64 + k) (omega arith)))

-- The scan stops at the first free slot.
pub scan-taken :
    (b : Block) (n : ℕ)
    → IsBytes b
    → n < slot_per_block
    → taken b n ≡ false
    → ((m : ℕ) → m < n → taken b m ≡ true)
    → scan words_per_block 0 b ≡ some (n / 64, n % 64)
scan-taken b n h l z o =
    let e : 0 + n / 64 ≡ n / 64 = omega arith in
    let here : leading_zero (word b (n / 64)) ≡ some (n % 64) =
      leading_zero-first (n % 64) (word b (n / 64)) (word-lt b (n / 64) h) (omega arith) z (λ k lk.
        sym (taken_words b (n / 64) k (omega arith)) ∙ o (n / 64 * 64 + k) (omega arith)) in
    rw e at (
      scan-first words_per_block 0 (n / 64) (n % 64) b (omega arith)
        (λ i li. full_word b i h (λ m lm. o m (omega arith))) (rw e here))

pub scan-taken-full :
    (b : Block)
    → IsBytes b
    → ((m : ℕ) → m < slot_per_block → taken b m ≡ true)
    → scan words_per_block 0 b ≡ none
scan-taken-full b h o =
    scan-full words_per_block 0 b (λ i l. full_word b i h (λ m lm. o m (omega arith)))

-- Taking a slot sets it, and clearing a slot clears it; the other slots stay.
pub taken-set_bit :
    (b : Block) (n m : ℕ)
    → IsBytes b
    → taken (set_word b (n / 64) (bit_or (word b (n / 64)) (2 ^ (n % 64)))) m
      ≡ (if n == m then true else taken b m)
taken-set_bit b n m h =
    let x = word b (n / 64) in
    taken-set_word b n m (bit_or x (2 ^ (n % 64))) true
      (bit_or-lt 64 (n % 64) x (omega arith) (word-lt b (n / 64) h))
      (λ k. test_bit-bit_or (n % 64) k x)

pub taken-clear_slot :
    (b : Block) (n m : ℕ)
    → IsBytes b
    → taken (clear_slot n b) m ≡ (if n == m then false else taken b m)
taken-clear_slot b n m h =
    let x = word b (n / 64) in
    taken-set_word b n m (bit_and x (mask 64 (n % 64))) false
      (bit_and-lt 64 (n % 64) x (omega arith) (word-lt b (n / 64) h))
      (λ k. test_bit-bit_and 64 (n % 64) k x (omega arith) (word-lt b (n / 64) h))
