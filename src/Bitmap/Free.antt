-- ===== src/Bitmap/Free.antt =====
-- `Bitmap::free` on the slots of the bitmap.
use sbfs.Prelude.{
  ℕ, ◌+◌, ◌*◌, ◌/◌, ◌%◌, ◌<◌, ◌≡◌, ap, ◌∙◌, false, Option, some, ◌==◌, if◌then◌else◌, arith,
}
use sbfs.Block.{Block}
use sbfs.Store.{BlockStore, Leaves, Leaves-bind}
use sbfs.Bitmap.{Bitmap, slot_per_block, add32, sub32, clear_slot, free}
use sbfs.Bitmap.Slots.{taken-clear_slot}
use sbfs.Bitmap.Alloc.{Ready, home, used, used-changed}

-- The blocks after slot `n` is freed.
abbrev pub after_free : (m : Bitmap) (c : ℕ → Option Block) → Ready m c → ℕ → ℕ → Option Block
after_free m c r n j =
    if home m c n == j
    then some (clear_slot (n % slot_per_block) (r.block (n / slot_per_block)))
    else c j

-- Freeing the id of slot `n` of a bitmap that can be read succeeds, clears that slot, and leaves
-- the other slots and all other blocks as they were.
pub free-used :
    (bs : BlockStore) (m : Bitmap) (s : bs.State) (n : ℕ)
    → bs.Good s
    → (r : Ready m (bs.contents s)) → n < m.num_blocks * slot_per_block
    → Leaves bs.Good bs.contents
        (free bs m (n + m.data_segment_offset) s)
        tt
        (after_free m (bs.contents s) r n)
      × ((k : ℕ)
          → used m (after_free m (bs.contents s) r n) k
            ≡ (if n == k then false else used m (bs.contents s) k))
unfolding free
free-used bs m s n g r h =
    let i = n / slot_per_block in
    let in_bitmap : i < m.num_blocks = omega arith in
    let id : sub32 (n + m.data_segment_offset) m.data_segment_offset ≡ n =
      omega (arith, r.ids_fit) in
    let a : add32 m.start_block_id i ≡ m.start_block_id + i = omega (arith, r.fits) in
    let here = r.reads i in_bitmap in
    (
      rw (id, a)
          (Leaves-bind (bs.read (m.start_block_id + i)) _
            (bs.read-Leaves s (m.start_block_id + i) g here)
            λ w gw sw.
              let l =
                bs.write-Leaves w (m.start_block_id + i)
                  (clear_slot (n % slot_per_block) (r.block i)) gw (sw _ ∙ here) in
              record {
                after = l.after;
                runs = l.runs;
                good = l.good;
                holds = λ j.
                    l.holds j
                    ∙ ap
                        (λ o.
                          if m.start_block_id + i == j
                          then some (clear_slot (n % slot_per_block) (r.block i))
                          else o)
                        (sw j);
              }),
      λ k.
          used-changed m (bs.contents s) n k (r.block i)
            (clear_slot (n % slot_per_block) (r.block i)) false here
            (λ q. taken-clear_slot (r.block i) (n % slot_per_block) q (r.bytes i in_bitmap)),
    )
