-- ===== src/Bitmap/Full.antt =====
-- `Bitmap::alloc` on a bitmap without a free slot.

use sbfs.Prelude.{
  refl, and_then, ◌∙◌, ap, sym, ℕ, zero, suc, ◌+◌, ◌*◌, ◌<◌, ◌≡◌, true, Option, none, arith,
}
use sbfs.Block.{Block}
use sbfs.Store.{BlockStore}
use sbfs.Bitmap.{add32, alloc, alloc_from, take_slot, Bitmap, scan, slot_per_block, words_per_block}
use sbfs.Bitmap.Slots.{scan-taken-full}
use sbfs.Bitmap.Alloc.{Ready, used, used-block}

-- A call that fails in a good state, with the blocks as they were.
pub record Refused (bs : BlockStore) (c : ℕ → Option Block) (r : Option ℕ × bs.State) : Type 0 where
  pub after : bs.State
  pub runs : r ≡ (none, after)
  pub good : bs.Good after
  pub holds : (j : ℕ) → bs.contents after j ≡ c j

module _ (bs : BlockStore) (m : Bitmap) (c : ℕ → Option Block) (r : Ready m c)
    (full : (k : ℕ) → k < m.num_blocks * slot_per_block → used m c k ≡ true) where
  scan_block : (i : ℕ) → i < m.num_blocks → scan words_per_block 0 (r.block i) ≡ none
  scan_block i h =
      scan-taken-full (r.block i) (r.bytes i h) λ k l.
        sym (used-block m c i k (r.reads i h) l) ∙ full (i * slot_per_block + k) (omega arith)

  alloc_from-Refused :
      (k i : ℕ) (s : bs.State)
      → bs.Good s
      → ((j : ℕ) → bs.contents s j ≡ c j)
      → i + k ≡ m.num_blocks
      → Refused bs c (alloc_from bs m k i s)
  unfolding alloc_from take_slot
  alloc_from-Refused zero i s g same e = record { after = s; runs = refl; good = g; holds = same }
  alloc_from-Refused (suc k) i s g same e =
      let a : add32 m.start_block_id i ≡ m.start_block_id + i = omega (arith, r.fits) in
      let l =
        bs.read-Leaves s (add32 m.start_block_id i) g (same _ ∙ ap c a ∙ r.reads i (omega arith)) in
      let rest =
        alloc_from-Refused k (i + 1) l.after l.good (λ j. l.holds j ∙ same j) (omega arith) in
      record {
        after = rest.after;
        runs =
            ap
              (λ x.
                and_then x
                  (λ b. take_slot bs m i b (alloc_from bs m k (i + 1)) (scan words_per_block 0 b)))
              l.runs
            ∙ ap (λ o. take_slot bs m i (r.block i) (alloc_from bs m k (i + 1)) o l.after)
                (scan_block i (omega arith))
            ∙ rest.runs;
        good = rest.good;
        holds = rest.holds;
      }

-- When every slot of a bitmap that can be read is in use, `alloc` fails, and the blocks are as
-- they were.
pub alloc-full :
    (bs : BlockStore) (m : Bitmap) (s : bs.State)
    → bs.Good s
    → Ready m (bs.contents s)
    → ((k : ℕ) → k < m.num_blocks * slot_per_block → used m (bs.contents s) k ≡ true)
    → Refused bs (bs.contents s) (alloc bs m s)
unfolding alloc
alloc-full bs m s g r full =
    alloc_from-Refused bs m (bs.contents s) r full m.num_blocks 0 s g (λ j. refl) (omega arith)
