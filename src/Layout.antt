-- ===== src/Layout.antt =====
-- The layout of the disk, src/sbfs.cpp: the super block's counts, where each area starts, and the
-- two ways between an inode's id and its position.
pub mod Ids
pub mod Root
use sbfs.Prelude.{ℕ, ◌+◌, ◌*◌, ◌/◌, ◌%◌, ◌^◌, M}
use sbfs.Block.{block_size}
use sbfs.Store.{BlockStore}
use sbfs.Position.{Position, invalid}
use sbfs.Bitmap.{Bitmap, alloc, free, add32, sub32}
use sbfs.DiskInode.Bytes.{inode_bytes}

pub record SuperBlock : Type 0 where
  pub magic : ℕ
  pub total_blocks : ℕ
  pub inode_bitmap_blocks : ℕ
  pub inode_area_blocks : ℕ
  pub data_bitmap_blocks : ℕ
  pub data_area_blocks : ℕ
  pub root_inode_pos : Position

-- `kInodesInABlock`.
abbrev pub inodes_in_block : ℕ
inodes_in_block = block_size / inode_bytes

-- Products in the counts of `create` are of `uint64_t`, stored to `uint32_t`; the difference and
-- the sums are of `uint32_t`.
unfoldable pub inode_area : ℕ → ℕ
inode_area bitmap_blocks = bitmap_blocks * 8 % 2 ^ 32 * block_size / inodes_in_block % 2 ^ 32

unfoldable pub remaining_blocks : (total_blocks bitmap_blocks : ℕ) → ℕ
unfolding inode_area
remaining_blocks total_blocks bitmap_blocks =
    sub32 (sub32 total_blocks bitmap_blocks) (inode_area bitmap_blocks)

-- The super block that `create` writes first.
unfoldable pub create : (magic total_blocks bitmap_blocks : ℕ) → SuperBlock
unfolding remaining_blocks inode_area
create magic total_blocks bitmap_blocks =
    let data_bitmaps = remaining_blocks total_blocks bitmap_blocks / (1 + 8 * block_size) in
    record {
      magic = magic;
      total_blocks = total_blocks;
      inode_bitmap_blocks = bitmap_blocks;
      inode_area_blocks = inode_area bitmap_blocks;
      data_bitmap_blocks = data_bitmaps % 2 ^ 32;
      data_area_blocks = data_bitmaps * 8 * block_size % 2 ^ 32;
      root_inode_pos = invalid;
    }

-- `SBFileSystem`, less its device.
pub record Fs : Type 0 where
  pub super_block : SuperBlock
  pub inode_bitmap : Bitmap
  pub data_bitmap : Bitmap
  pub inode_area_start : ℕ
  pub data_area_start : ℕ

unfoldable pub init_bitmap_and_block : SuperBlock → Fs
init_bitmap_and_block sb =
    let inode_area_offset = add32 1 sb.inode_bitmap_blocks in
    let data_bitmap_offset = add32 inode_area_offset sb.inode_area_blocks in
    let data_area_offset = add32 data_bitmap_offset sb.data_bitmap_blocks in
    record {
      super_block = sb;
      inode_bitmap = record {
        start_block_id = 1;
        num_blocks = sb.inode_bitmap_blocks;
        data_segment_offset = inode_area_offset;
      };
      data_bitmap = record {
        start_block_id = data_bitmap_offset;
        num_blocks = sb.data_bitmap_blocks;
        data_segment_offset = data_area_offset;
      };
      inode_area_start = inode_area_offset;
      data_area_start = data_area_offset;
    }

unfoldable pub disk_inode_pos : Fs → ℕ → Position
disk_inode_pos fs inode_id = record {
  block_id = add32 fs.inode_area_start (inode_id / inodes_in_block);
  block_offset = inode_id % inodes_in_block * inode_bytes;
}

unfoldable pub disk_inode_id : Fs → Position → ℕ
disk_inode_id fs pos =
    add32 (sub32 pos.block_id fs.inode_area_start * inodes_in_block % 2 ^ 32)
      (pos.block_offset / inode_bytes)

module _ (bs : BlockStore) where
  open bs use {State}

  unfoldable pub alloc_inode : Fs → M State ℕ
  alloc_inode fs = alloc bs fs.inode_bitmap

  unfoldable pub alloc_data : Fs → M State ℕ
  alloc_data fs = alloc bs fs.data_bitmap

  pub free_inode : Fs → ℕ → M State (Unit {0})
  free_inode fs inode_id = free bs fs.inode_bitmap inode_id

  pub free_data : Fs → ℕ → M State (Unit {0})
  free_data fs block_id = free bs fs.data_bitmap block_id
