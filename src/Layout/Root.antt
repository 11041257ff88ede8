-- ===== src/Layout/Root.antt =====
-- The parts of src/sbfs.cpp that write to a new disk and read an old one: the super block, and the
-- root directory.
pub mod Saved
pub mod Blank
use sbfs.Prelude.{
  ℕ, ◌+◌, ◌*◌, ◌%◌, ◌==◌, ◌||◌, ltb, if◌then◌else◌, Option, none, some, [], ◌∷◌, update, bit_or, M,
  pure, fail, ◌>>=◌, ◌>>◌,
}
use sbfs.Block.{Block, block_size, get_le, put_le}
use sbfs.Store.{BlockStore}
use sbfs.Position.{u32_max}
use sbfs.DiskInode.{DiskInode, directory, new_inode}
use sbfs.DiskInode.Bytes.{write_inode}
use sbfs.Inode.Entries.{entry_bytes, max_name, put_string}
use sbfs.Layout.{
  SuperBlock, Fs, create, init_bitmap_and_block, disk_inode_pos, alloc_inode, alloc_data,
}

-- `kFSMagic`.
abbrev pub fs_magic : ℕ
fs_magic = 0x53425355

-- The bytes of a `SuperBlock`. Those of its member `padding` stay.
pub put_super : Block → SuperBlock → Block
put_super pad sb =
    let counts =
      put_le 4 (put_le 4 (put_le 4 pad 0 sb.magic) 4 sb.total_blocks) 8 sb.inode_bitmap_blocks in
    let areas =
      put_le 4 (put_le 4 (put_le 4 counts 12 sb.inode_area_blocks) 16 sb.data_bitmap_blocks) 20
        sb.data_area_blocks in
    put_le 4 (put_le 4 areas 24 sb.root_inode_pos.block_id) 28 sb.root_inode_pos.block_offset

pub get_super : Block → SuperBlock
get_super b = record {
  magic = get_le 4 b 0;
  total_blocks = get_le 4 b 4;
  inode_bitmap_blocks = get_le 4 b 8;
  inode_area_blocks = get_le 4 b 12;
  data_bitmap_blocks = get_le 4 b 16;
  data_area_blocks = get_le 4 b 20;
  root_inode_pos = record { block_id = get_le 4 b 24; block_offset = get_le 4 b 28 };
}

-- A `DirBlock` where its constructor finds the bytes of `stale`: each entry gets an empty name and
-- the inode 0, and its other bytes stay.
pub new_dir_block : (stale : Block) → Block
new_dir_block stale o =
    if o % entry_bytes == 0 || ltb max_name (o % entry_bytes) then 0 else stale o

-- The entries `.` and `..` of the root, in a new `DirBlock`. `strcpy` writes the 0 at the end too.
pub root_block : (stale : Block) → (id : ℕ) → Block
unfolding new_dir_block
root_block stale id =
    put_le 4
      (put_string (46 ∷ 46 ∷ 0 ∷ [])
        (put_le 4 (put_string (46 ∷ 0 ∷ []) (new_dir_block stale) 0) (max_name + 1) id) entry_bytes)
      (entry_bytes + max_name + 1) id

pub root_inode : (now uid gid data_id : ℕ) → DiskInode
root_inode now uid gid data_id =
    let d = new_inode now uid gid directory in
    record d {
      size = 2 * entry_bytes;
      mode = bit_or d.mode 0o755;
      direct = update d.direct 0 data_id;
    }

module _ {S : Type 0} where
  -- Results that the caller does not test.
  abbrev drop_result : {A : Type 0} → Option A × S → S
  drop_result (_, s) = s

  abbrev id_of : Option ℕ × S → ℕ × S
  id_of (none, s) = (u32_max, s)
  id_of (some id, s) = (id, s)

-- `pad` is the memory that no constructor sets: the super block's from offset 0 on, and that of the
-- root's `DirBlock` from offset `block_size` on.
module _ (bs : BlockStore) (now uid gid : ℕ) (pad : Block) where
  open bs use {State, read, write}

  -- `createRoot`, with the file system that has the root's position.
  unfoldable pub create_root : Fs → State → Fs × State
  unfolding put_super root_block root_inode
  create_root fs s =
      let (inode_id, s1) = id_of (alloc_inode bs fs s) in
      let (data_id, s2) = id_of (alloc_data bs fs s1) in
      let pos = disk_inode_pos fs inode_id in
      let s3 = drop_result (write_inode bs pos (root_inode now uid gid data_id) s2) in
      let s4 = drop_result (write data_id (root_block (λ o. pad (block_size + o)) inode_id) s3) in
      let sb = record fs.super_block { root_inode_pos = pos } in
      (record fs { super_block = sb }, drop_result (write 0 (put_super pad sb) s4))

  -- `SBFileSystem::create` on a new device.
  unfoldable pub create_fs : (total_blocks bitmap_blocks : ℕ) → State → Fs × State
  unfolding create_root put_super
  create_fs total_blocks bitmap_blocks s =
      let sb = create fs_magic total_blocks bitmap_blocks in
      create_root (init_bitmap_and_block sb) (drop_result (write 0 (put_super pad sb) s))

module _ (bs : BlockStore) where
  open bs use {State, read}

  abbrev pub checked : SuperBlock → M State Fs
  checked sb = if sb.magic == fs_magic then pure (init_bitmap_and_block sb) else fail

  -- `SBFileSystem::open` on the device of an old disk. `none` is the file system that is not set up.
  pub open_fs : M State Fs
  unfolding get_super
  open_fs = do b ← read 0; checked (get_super b)
