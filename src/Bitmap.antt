-- ===== src/Bitmap.antt =====
-- `Bitmap` of include/fs_layout.h and src/bitmap.cpp, over the interface of the block device.
-- `kFail` of `alloc` is `none`.
pub mod Scan
pub mod Slots
pub mod Alloc
pub mod Free
pub mod Full
pub mod Spare
pub mod Eventually
use sbfs.Prelude.{
  ℕ, zero, suc, ◌+◌, ◌-◌, ◌*◌, ◌/◌, ◌%◌, ◌^◌, Option, none, some, ◌==◌, if◌then◌else◌, bit_or,
  bit_and, M, fail, pure, ◌>>=◌, ◌>>◌,
}
use sbfs.Block.{Block, block_size, get_le, put_le}
use sbfs.Store.{BlockStore}
use sbfs.Word.{mask}

pub record Bitmap : Type 0 where
  pub start_block_id : ℕ
  pub num_blocks : ℕ
  pub data_segment_offset : ℕ

-- A block has `slot_per_block` slots, in 512 words of 64 bits.
abbrev pub slot_per_block : ℕ
slot_per_block = block_size * 8

abbrev pub words_per_block : ℕ
words_per_block = block_size / 8

-- `p[j]` of the `uint64_t *p` at the block's bytes.
abbrev pub word : Block → ℕ → ℕ
word b j = get_le 8 b (8 * j)

abbrev pub set_word : Block → ℕ → ℕ → Block
set_word b j x = put_le 8 b (8 * j) x

-- `__builtin_ctzll` of a word that is not 0: the zeros below its lowest one.
pub ctz : ℕ → ℕ → ℕ
ctz zero x = 0
ctz (suc w) x = if x % 2 == 1 then 0 else suc (ctz w (x / 2))

-- `none` is the source's -1, for a word with no zero.
unfoldable pub leading_zero : ℕ → Option ℕ
unfolding ctz
leading_zero x = if x == 2 ^ 64 - 1 then none else some (ctz 64 (2 ^ 64 - 1 - x))

-- The loop over the `n` words from word `j` on: the first with a zero, and where that is.
pub scan : ℕ → ℕ → Block → Option (ℕ × ℕ)
unfolding leading_zero
scan zero j b = none
scan (suc n) j b = elim (leading_zero (word b j)) [ none ↦ scan n (j + 1) b | some k ↦ some (j, k) ]

-- Sums of `uint32_t` wrap.
abbrev pub add32 : ℕ → ℕ → ℕ
add32 a b = (a + b) % 2 ^ 32

-- The difference of two numbers below `2 ^ 32`.
abbrev pub sub32 : ℕ → ℕ → ℕ
sub32 a b = (a + 2 ^ 32 - b) % 2 ^ 32

-- The id of bit `k` of word `j` of block `i`, as `alloc` computes it.
abbrev pub slot_id : Bitmap → ℕ → ℕ → ℕ → ℕ
slot_id m i j k = (i * slot_per_block % 2 ^ 32 + j * 8 * 8 + k + m.data_segment_offset) % 2 ^ 32

-- `p[slot / 64] &= ~(1ul << slot % 64)`
abbrev pub clear_slot : ℕ → Block → Block
clear_slot slot b = set_word b (slot / 64) (bit_and (word b (slot / 64)) (mask 64 (slot % 64)))

module _ (bs : BlockStore) where
  open bs use {State, read, write}

  -- The bit that was found is set, and the block goes back; else the next block is `next`.
  take_slot : Bitmap → ℕ → Block → M State ℕ → Option (ℕ × ℕ) → M State ℕ
  take_slot m i b next none = next
  take_slot m i b next (some (j, k)) = do
    write (add32 m.start_block_id i) (set_word b j (bit_or (word b j) (2 ^ k)))
    pure (slot_id m i j k)

  -- The loop over the `n` blocks from block `i` on.
  alloc_from : Bitmap → ℕ → ℕ → M State ℕ
  unfolding take_slot scan
  alloc_from m zero i = fail
  alloc_from m (suc n) i = do
    b ← read (add32 m.start_block_id i)
    take_slot m i b (alloc_from m n (i + 1)) (scan words_per_block 0 b)

  pub alloc : Bitmap → M State ℕ
  unfolding alloc_from
  alloc m = alloc_from m m.num_blocks 0

  pub free : Bitmap → ℕ → M State (Unit {0})
  free m block_id =
      let id = sub32 block_id m.data_segment_offset in
      let i = add32 m.start_block_id (id / slot_per_block) in
      do b ← read i; write i (clear_slot (id % slot_per_block) b)
