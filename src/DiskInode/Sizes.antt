-- ===== src/DiskInode/Sizes.antt =====
-- `total_blocks` against `data_blocks`, and against the blocks that `increase` takes.
use sbfs.Prelude.{ℕ, ◌+◌, ◌-◌, ◌<◌, ◌≤◌, ◌≡◌, refl, ◌↔◌, ◌==◌, if◌then◌else◌, arith}
use sbfs.Store.{BlockStore}
use sbfs.Bitmap.{Bitmap}
use sbfs.Bitmap.Alloc.{Ready}
use sbfs.DiskInode.{DiskInode, data_blocks, total_blocks, direct_count}
use sbfs.DiskInode.Increase.{increase}
use sbfs.DiskInode.Increase.Direct.{HasSpare, Grown}
use sbfs.DiskInode.Increase.Few.{increase-Grown}

-- More data blocks make more blocks.
pub total_blocks-lt : (a b : ℕ) → data_blocks a < data_blocks b → total_blocks a < total_blocks b
unfolding total_blocks
total_blocks-lt a b h = ground arith

-- Two sizes have one total of blocks exactly when they have one number of data blocks, so that the
-- test of `resize` on the totals sees every change of the data blocks.
pub total_blocks_iff :
    (a b : ℕ) → (total_blocks a ≡ total_blocks b) ↔ (data_blocks a ≡ data_blocks b)
unfolding total_blocks
total_blocks_iff a b = ground arith

-- Where a file grows from `n` data blocks to more, at most 23, and the bitmap has as many free
-- slots as blocks are missing, `increase` succeeds: it sets the direct entries of the new blocks to
-- different blocks that were free, and changes nothing else of the inode, so that the file gets no
-- index block. For a size with that many data blocks, `total_blocks` is their number, but one more
-- at 23.
pub increase-total_blocks :
    (bs : BlockStore) (m : Bitmap) (n size : ℕ) (d : DiskInode) (s : bs.State)
    → bs.Good s
    → Ready m (bs.contents s)
    → HasSpare m (bs.contents s) (data_blocks size - n)
    → n < data_blocks size
    → data_blocks size ≤ direct_count
    → Grown bs m
        (bs.contents s)
        (data_blocks size - n)
        n
        d
        (increase bs m n (data_blocks size) (record { node = d; dev = s }))
      × (total_blocks size
          ≡ (if data_blocks size == direct_count then data_blocks size + 1 else data_blocks size))
unfolding total_blocks
increase-total_blocks bs m n size d s g r spare h k = (
  increase-Grown bs m (bs.contents s) n (data_blocks size) d s g (λ j. refl) r spare h k,
  ground arith,
)
