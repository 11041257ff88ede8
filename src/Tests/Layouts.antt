-- ===== src/Tests/Layouts.antt =====
-- The theorems on the layout of the disk, at a disk with one block of inode bitmap.
use sbfs.Prelude.{◌+◌, ◌-◌, ◌*◌, ◌≤◌, ◌≡◌, arith}
use sbfs.Bitmap.{slot_per_block}
use sbfs.Layout.{Fs, create, init_bitmap_and_block, disk_inode_pos, disk_inode_id}
use sbfs.Layout.Ids.{disk_inode_id-disk_inode_pos, disk_inode_pos-behind}

abbrev fs : Fs
fs = init_bitmap_and_block (create 0x5BF5 100000 1)

disk_inode_id-disk_inode_pos_example : disk_inode_id fs (disk_inode_pos fs 77) ≡ 77
unfolding init_bitmap_and_block create
disk_inode_id-disk_inode_pos_example =
    disk_inode_id-disk_inode_pos fs 77 (omega arith) (omega arith)

disk_inode_pos-behind_example :
    fs.data_bitmap.start_block_id
    ≤ (disk_inode_pos fs (fs.inode_bitmap.data_segment_offset + (1 * slot_per_block - 1))).block_id
disk_inode_pos-behind_example = disk_inode_pos-behind 0x5BF5 100000 1 (omega arith) (omega arith)
