-- ===== src/Layout/Ids.antt =====
-- The ids of inodes and their positions.
use sbfs.Prelude.{ℕ, ◌+◌, ◌-◌, ◌*◌, ◌^◌, ◌≤◌, ◌<◌, ◌≡◌, arith}
use sbfs.Bitmap.{slot_per_block}
use sbfs.Layout.{Fs, init_bitmap_and_block, create, inode_area, disk_inode_pos, disk_inode_id}

-- Wherever the inode area starts, an inode's position leads back to its id.
pub disk_inode_id-disk_inode_pos :
    (fs : Fs) (id : ℕ)
    → fs.inode_area_start < 2 ^ 32
    → id < 2 ^ 32
    → disk_inode_id fs (disk_inode_pos fs id) ≡ id
unfolding disk_inode_id disk_inode_pos
disk_inode_id-disk_inode_pos fs id h k = omega arith

-- On a disk that `create` lays out with an inode bitmap of fewer than 2 ^ 16 blocks, the position
-- for the id of the bitmap's last slot lies behind the inode area, at or after the start of the
-- data bitmap.
pub disk_inode_pos-behind :
    (magic total bitmap_blocks : ℕ)
    → 0 < bitmap_blocks
    → bitmap_blocks < 2 ^ 16
    → let fs = init_bitmap_and_block (create magic total bitmap_blocks) in
      fs.data_bitmap.start_block_id
      ≤ (disk_inode_pos fs
          (fs.inode_bitmap.data_segment_offset + (bitmap_blocks * slot_per_block - 1))).block_id
unfolding disk_inode_pos init_bitmap_and_block create inode_area
disk_inode_pos-behind magic total bitmap_blocks h k = omega arith
