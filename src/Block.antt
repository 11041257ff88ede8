-- ===== src/Block.antt =====
-- `struct Block` of include/blk.h, and the casts of its bytes to little-endian words that
-- src/bitmap.cpp and src/disk_inode.cpp make, `(uint64_t *)buf.data` and `(uint32_t *)buf.data`.
-- A block is its bytes, by their offsets; the offsets from `block_size` on mean nothing.
-- A word of `n` bytes at offset `o` has its lowest byte first, as on the machines SBFS runs on.
pub mod Fields
use native.Mathlib.Nat.{pow-suc}
use sbfs.Prelude.{
  ℕ, zero, suc, ◌+◌, ◌*◌, ◌/◌, ◌%◌, ◌^◌, ◌≤◌, ◌<◌, ◌≡◌, refl, ◌⊎◌, inl, inr, ◌∙◌, arith, update,
  update_self, update_ne,
}

abbrev pub block_size : ℕ
block_size = 4096

abbrev pub Block : Type 0
Block = ℕ → ℕ

unfoldable pub get_le : ℕ → Block → ℕ → ℕ
get_le zero b o = 0
get_le (suc n) b o = b o + 256 * get_le n b (o + 1)

unfoldable pub put_le : ℕ → Block → ℕ → ℕ → Block
put_le zero b o v = b
put_le (suc n) b o v = put_le n (update b o (v % 256)) (o + 1) (v / 256)

-- Every entry is a byte.
abbrev pub IsBytes : Block → Type 0
IsBytes b = (o : ℕ) → b o < 256

pub put_le-below : (n : ℕ) (b : Block) (o v q : ℕ) → q < o → put_le n b o v q ≡ b q
unfolding put_le
put_le-below zero b o v q h = refl
put_le-below (suc n) b o v q h =
    put_le-below n (update b o (v % 256)) (o + 1) (v / 256) q (omega arith)
    ∙ update_ne b (v % 256) (omega arith)

pub put_le-above : (n : ℕ) (b : Block) (o v q : ℕ) → o + n ≤ q → put_le n b o v q ≡ b q
unfolding put_le
put_le-above zero b o v q h = refl
put_le-above (suc n) b o v q h =
    put_le-above n (update b o (v % 256)) (o + 1) (v / 256) q (omega arith)
    ∙ update_ne b (v % 256) (omega arith)

-- A word that is written is read back.
pub get_le-put_le_self :
    (n : ℕ) (b : Block) (o v : ℕ) → v < 256 ^ n → get_le n (put_le n b o v) o ≡ v
unfolding get_le put_le
get_le-put_le_self zero b o v h = omega arith
get_le-put_le_self (suc n) b o v h =
    let small : v / 256 < 256 ^ n = omega (arith, pow-suc 256 n) in
    omega (
      arith,
      get_le-put_le_self n (update b o (v % 256)) (o + 1) (v / 256) small,
      put_le-below n (update b o (v % 256)) (o + 1) (v / 256) o (omega arith),
      update_self b o (v % 256),
    )

pub get_le_congr :
    (m : ℕ) (b c : Block) (p : ℕ)
    → ((q : ℕ) → p ≤ q → q < p + m → b q ≡ c q)
    → get_le m b p ≡ get_le m c p
unfolding get_le
get_le_congr zero b c p h = refl
get_le_congr (suc m) b c p h = omega (
  arith,
  h p (omega arith) (omega arith),
  get_le_congr m b c (p + 1) (λ q l u. h q (omega arith) (omega arith)),
)

-- A word that does not overlap the one written is as it was.
pub get_le-put_le_ne :
    (n m : ℕ) (b : Block) (o v p : ℕ)
    → (p + m ≤ o) ⊎ (o + n ≤ p)
    → get_le m (put_le n b o v) p ≡ get_le m b p
get_le-put_le_ne n m b o v p (inl h) =
    get_le_congr m _ b p (λ q l u. put_le-below n b o v q (omega arith))
get_le-put_le_ne n m b o v p (inr h) =
    get_le_congr m _ b p (λ q l u. put_le-above n b o v q (omega arith))

pub get_le-lt : (n : ℕ) (b : Block) (o : ℕ) → IsBytes b → get_le n b o < 256 ^ n
unfolding get_le
get_le-lt zero b o h = omega arith
get_le-lt (suc n) b o h = omega (arith, pow-suc 256 n, h o, get_le-lt n b (o + 1) h)

pub put_le-IsBytes : (n : ℕ) (b : Block) (o v : ℕ) → IsBytes b → IsBytes (put_le n b o v)
unfolding put_le
put_le-IsBytes zero b o v h = h
put_le-IsBytes (suc n) b o v h =
    put_le-IsBytes n (update b o (v % 256)) (o + 1) (v / 256) (λ q. ground (arith, h q))
