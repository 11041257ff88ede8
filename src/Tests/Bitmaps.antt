-- ===== src/Tests/Bitmaps.antt =====
-- The theorems on bitmaps, at a bitmap of one block in a store in memory.
use mathlib.Core.Path.{subst}
use sbfs.Prelude.{
  ℕ, ◌+◌, ◌*◌, ◌%◌, ◌<◌, ◌≡◌, refl, true, false, Option, some, ◌==◌, if◌then◌else◌, arith,
}
use sbfs.Block.{Block, get_le}
use sbfs.Store.{Leaves}
use sbfs.Word.{test_bit}
use sbfs.Bitmap.{Bitmap, alloc, free, slot_per_block}
use sbfs.Bitmap.Scan.{full-ones}
use sbfs.Bitmap.Alloc.{Ready, used, after_alloc, alloc-first}
use sbfs.Bitmap.Full.{Refused, alloc-full}
use sbfs.Bitmap.Free.{after_free, free-used}
use sbfs.Tests.{memory, filled}

abbrev bitmap : Bitmap
bitmap = record { start_block_id = 1; num_blocks = 1; data_segment_offset = 2 }

abbrev all : ℕ → ℕ → Option Block
all byte = λ i. some (filled byte)

abbrev ready : (byte : ℕ) → byte < 256 → Ready bitmap (all byte)
ready byte h = record {
  block = λ i. filled byte;
  reads = λ i l. refl;
  bytes = λ i l o. h;
  fits = omega arith;
  ids_fit = omega arith;
}

abbrev one_free : used bitmap (all 1) 1 ≡ false
unfolding get_le test_bit
one_free = refl

abbrev zero_used : (k : ℕ) → k < 1 → used bitmap (all 1) k ≡ true
unfolding get_le test_bit
zero_used k h = subst (λ n. used bitmap (all 1) n ≡ true) {x = 0} {y = k} (omega arith) refl

abbrev after : ℕ → Option Block
after = after_alloc memory bitmap (all 1) (ready 1 (omega arith)) 1 (omega arith) one_free zero_used

alloc-first_example :
    Leaves memory.Good memory.contents (alloc memory bitmap (all 1)) (1 + 2) after
    × ((k : ℕ)
        → k < 1 * slot_per_block
        → used bitmap after k ≡ (if 1 == k then true else used bitmap (all 1) k))
alloc-first_example =
    alloc-first memory bitmap (all 1) 1 tt (ready 1 (omega arith)) (omega arith) one_free zero_used

abbrev all_used : (k : ℕ) → k < 1 * slot_per_block → used bitmap (all 255) k ≡ true
unfolding get_le
all_used k h = full-ones 64 (k % slot_per_block % 64) (omega arith)

alloc-full_example : Refused memory (all 255) (alloc memory bitmap (all 255))
alloc-full_example = alloc-full memory bitmap (all 255) tt (ready 255 (omega arith)) all_used

abbrev freed : ℕ → Option Block
freed = after_free bitmap (all 255) (ready 255 (omega arith)) 9

free-used_example :
    Leaves memory.Good memory.contents (free memory bitmap (9 + 2) (all 255)) tt freed
    × ((k : ℕ) → used bitmap freed k ≡ (if 9 == k then false else used bitmap (all 255) k))
free-used_example = free-used memory bitmap (all 255) 9 tt (ready 255 (omega arith)) (omega arith)
