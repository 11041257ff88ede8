-- ===== src/DiskInode/Resize/Same.antt =====
-- `resize` where the number of data blocks stays.
use sbfs.Prelude.{ℕ, ◌≡◌, true, none, some, ==_iff}
use sbfs.Store.{BlockStore}
use sbfs.Bitmap.{Bitmap}
use sbfs.DiskInode.{Task, data_blocks, total_blocks, update_meta}
use sbfs.DiskInode.Sizes.{total_blocks_iff}
use sbfs.DiskInode.Decrease.{save}
use sbfs.DiskInode.Resize.{change_blocks, resize}

-- Resizing an inode in memory to a size with as many data blocks as it has succeeds, sets the size
-- and the three times, and does not touch the device.
pub resize-same_blocks :
    (bs : BlockStore) (m : Bitmap) (now new_size : ℕ) (t : Task bs.State)
    → data_blocks t.node.size ≡ data_blocks new_size
    → resize bs m now none new_size t ≡ (
      some tt,
      record {
        node = record (update_meta now true true true t.node) { size = new_size };
        dev = t.dev;
      },
    )
unfolding resize change_blocks save
resize-same_blocks bs m now new_size t h =
    let e =
      (==_iff (total_blocks t.node.size) (total_blocks new_size)).1
        ((total_blocks_iff t.node.size new_size).1 h) in
    rw (e)
