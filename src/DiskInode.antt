-- ===== src/DiskInode.antt =====
-- `DiskInode` of include/fs_layout.h and src/disk_inode.cpp: the record, its sizes in blocks, and the
-- way from a block of the file to a block of the device. The children have the other methods.
pub mod Bytes
pub mod Sizes
pub mod Lookup
pub mod Increase
pub mod Decrease
pub mod Resize
pub mod Data
use sbfs.Prelude.{
  ℕ, ◌+◌, ◌-◌, ◌*◌, ◌/◌, ◌%◌, ◌^◌, Bool, Option, none, some, ltb, leb, if◌then◌else◌, M,
}
use sbfs.Block.{Block, block_size, get_le, put_le}
use sbfs.Store.{BlockStore}
use sbfs.Position.{u32_max}

pub data DiskInodeType : Type 0 where
  file directory : DiskInodeType

pub record DiskInode : Type 0 where
  pub size : ℕ
  pub access_time : ℕ
  pub change_time : ℕ
  pub modify_time : ℕ
  pub uid : ℕ
  pub gid : ℕ
  pub link_cnt : ℕ
  pub mode : ℕ
  -- The array `direct`, at the indices below `direct_count`.
  pub direct : ℕ → ℕ
  pub indirect1 : ℕ
  pub indirect2 : ℕ
  pub kind : DiskInodeType

-- `INODE_DIRECT_COUNT`, `INODE_INDIRECT_COUNT` and `MAX_BLOCK_SIZE`.
abbrev pub direct_count : ℕ
direct_count = 23

abbrev pub indirect_count : ℕ
indirect_count = block_size / 4

abbrev pub single_count : ℕ
single_count = direct_count + indirect_count

abbrev pub max_blocks : ℕ
max_blocks = direct_count + indirect_count + indirect_count * indirect_count

abbrev pub mode_of : DiskInodeType → ℕ
mode_of file = 0o100000
mode_of directory = 0o040000

-- The constructor, at a time and for the ids of the calling process.
unfoldable pub new_inode : (now uid gid : ℕ) → DiskInodeType → DiskInode
new_inode now uid gid kind = record {
  size = 0;
  access_time = now % 2 ^ 32;
  change_time = now % 2 ^ 32;
  modify_time = now % 2 ^ 32;
  uid = uid % 2 ^ 16;
  gid = gid % 2 ^ 16;
  link_cnt = 1;
  mode = mode_of kind;
  direct = λ i. 0;
  indirect1 = 0;
  indirect2 = 0;
  kind = kind;
}

-- `p[i]` of the `uint32_t *p` at an index block.
abbrev pub entry : Block → ℕ → ℕ
entry b i = get_le 4 b (4 * i)

abbrev pub set_entry : Block → ℕ → ℕ → Block
set_entry b i v = put_le 4 b (4 * i) v

unfoldable pub data_blocks : ℕ → ℕ
data_blocks size = (size + block_size - 1) / block_size

unfoldable pub total_blocks : ℕ → ℕ
unfolding data_blocks
total_blocks size =
    let n = data_blocks size in
    if ltb n direct_count
    then n
    else if ltb (n - direct_count) indirect_count
    then n + 1
    else n + 2 + (n - direct_count - indirect_count + indirect_count - 1) / indirect_count

-- `update_meta`: bits 1, 2 and 4 of the flag stand for the times of access, modification, change.
unfoldable pub update_meta : (now : ℕ) → (access modify change : Bool) → DiskInode → DiskInode
update_meta now access modify change d =
    let t = now % 2 ^ 32 in
    record d {
      access_time = if access then t else d.access_time;
      modify_time = if modify then t else d.modify_time;
      change_time = if change then t else d.change_time;
    }

-- An inode in memory beside the block device.
pub record Task (S : Type 0) : Type 0 where
  pub node : DiskInode
  pub dev : S

module _ {S : Type 0} where
  abbrev pub on_node : (DiskInode → DiskInode) → M (Task S) (Unit {0})
  on_node f t = (some tt, record t { node = f t.node })

  abbrev pub with_dev : {A : Type 0} → DiskInode → Option A × S → Option A × Task S
  with_dev d (a, s) = (a, record { node = d; dev = s })

  -- An operation of the device.
  abbrev pub on_dev : {A : Type 0} → M S A → M (Task S) A
  on_dev m t = with_dev t.node (m t.dev)

module _ (bs : BlockStore) where
  open bs use {State, read}

  -- Entry `i` of the index block `id`; `kFail` as a block id where the block cannot be read.
  unfoldable pub entry_or_fail : ℕ → Option Block × State → ℕ × State
  entry_or_fail i (none, s) = (u32_max, s)
  entry_or_fail i (some b, s) = (entry b i, s)

  unfoldable pub read_entry : ℕ → ℕ → State → ℕ × State
  unfolding entry_or_fail
  read_entry id i s = entry_or_fail i (read id s)

  unfoldable pub double_entry : ℕ → Option Block × State → ℕ × State
  unfolding read_entry
  double_entry i (none, s) = (u32_max, s)
  double_entry i (some b, s) = read_entry (entry b (i / indirect_count)) (i % indirect_count) s

  -- The device's block for block `inner_id` of the file. A failure is the id `kFail`, which the
  -- callers do not test.
  unfoldable pub block_id : DiskInode → ℕ → State → ℕ × State
  unfolding read_entry double_entry
  block_id d inner_id s =
      if leb max_blocks inner_id
      then (u32_max, s)
      else if ltb inner_id direct_count
      then (d.direct inner_id, s)
      else if ltb inner_id single_count
      then read_entry d.indirect1 (inner_id - direct_count) s
      else double_entry (inner_id - direct_count - indirect_count) (read d.indirect2 s)
