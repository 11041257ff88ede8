-- ===== src/DiskInode/Increase/Few.antt =====
-- `DiskInode::increase` where direct blocks are enough.
use sbfs.Prelude.{ℕ, ◌-◌, ◌≤◌, ◌<◌, ◌≡◌, refl, false, ltb, le→not_ltb, Option, min, arith}
use sbfs.Block.{Block}
use sbfs.Store.{BlockStore}
use sbfs.Bitmap.{Bitmap}
use sbfs.Bitmap.Alloc.{Ready}
use sbfs.DiskInode.{DiskInode, direct_count}
use sbfs.DiskInode.Increase.{increase, grow_single, grow_double}
use sbfs.DiskInode.Increase.Direct.{HasSpare, Grown, grow_direct-Grown}

module _ (bs : BlockStore) (m : Bitmap) where
  open bs use {State, Good, contents}

  pub increase-Grown :
      (f : ℕ → Option Block) (n n' : ℕ) (d : DiskInode) (s : State)
      → Good s
      → ((j : ℕ) → contents s j ≡ f j)
      → Ready m f
      → HasSpare m f (n' - n)
      → n < n'
      → n' ≤ direct_count
      → Grown bs m f (n' - n) n d (increase bs m n n' (record { node = d; dev = s }))
  unfolding increase grow_single grow_double
  increase-Grown f n n' d s g same r sp h k =
      let a = grow_direct-Grown bs m f (n' - n) n d s g same r sp in
      let fewer : min n' direct_count - n ≡ n' - n = omega arith in
      let single : ltb direct_count n' ≡ false = le→not_ltb direct_count n' k in
      let double : ltb 1047 n' ≡ false = le→not_ltb 1047 n' (omega arith) in
      record {
        slot = a.slot;
        direct = a.direct;
        after = a.after;
        runs = rw fewer (rw (a.runs, single, double) refl);
        good = a.good;
        new = a.new;
        old = a.old;
        in_range = a.in_range;
        was_free = a.was_free;
        rising = a.rising;
        kept = a.kept;
      }
