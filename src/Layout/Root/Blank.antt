-- ===== src/Layout/Root/Blank.antt =====
-- `create` of src/sbfs.cpp with the sizes that `init_vfs` gives it, on a device whose bitmaps have
-- their first slots free: 1 block of inode bitmap, 1024 of inodes from block 2 on, 127 of data
-- bitmap from block 1026 on, and the data from block 1153 on.
use sbfs.Prelude.{ℕ, ◌+◌, ◌<◌, ◌≡◌, refl, ◌∙◌, ap, false, Option, some, ◌==◌, if◌then◌else◌, arith}
use sbfs.Block.{Block, block_size, IsBytes}
use sbfs.Store.{BlockStore, Leaves}
use sbfs.Position.{Position}
use sbfs.Bitmap.{Bitmap, alloc}
use sbfs.Bitmap.Alloc.{Ready, used, after_alloc, alloc-Leaves}
use sbfs.DiskInode.{DiskInode, new_inode}
use sbfs.DiskInode.Bytes.{read_inode, write_inode, get_inode, put_inode}
use sbfs.DiskInode.Bytes.Saved
use sbfs.DiskInode.Bytes.Saved.{IsSame, get_inode-put_inode}
use sbfs.DiskInode.Bytes.Stored.{read_inode-Leaves, write_inode-Leaves}
use sbfs.Layout.{Fs, create, init_bitmap_and_block, disk_inode_pos, alloc_inode, alloc_data}
use sbfs.Layout.Root.Saved.{IsStorable, create-IsStorable, open_fs-Leaves}
use sbfs.Layout.Root.{put_super, fs_magic, create_root, create_fs, open_fs, root_inode, root_block}

abbrev total : ℕ
total = 4194304

-- The file system before it has a root.
abbrev bare : Fs
bare = init_bitmap_and_block (create fs_magic total 1)

-- The position of the root's inode, in the first slot.
abbrev root_pos : Position
root_pos = record { block_id = 2; block_offset = 256 }

abbrev pub made : Fs
made = record bare { super_block = record bare.super_block { root_inode_pos = root_pos } }

abbrev pub inode_slots : Bitmap
inode_slots = record { start_block_id = 1; num_blocks = 1; data_segment_offset = 2 }

abbrev pub data_slots : Bitmap
data_slots = record { start_block_id = 1026; num_blocks = 127; data_segment_offset = 1153 }

-- The blocks that `create` writes to.
pub record Blank (c : ℕ → Option Block) : Type 0 where
  pub super : Block
  pub inodes : Block
  pub bits : Block
  pub data_bits : ℕ → Block
  pub entries : Block
  pub super_there : c 0 ≡ some super
  pub inodes_there : c 2 ≡ some inodes
  pub entries_there : c 1153 ≡ some entries
  pub bits_there : c 1 ≡ some bits
  pub bits_IsBytes : IsBytes bits
  pub data_bits_there : (i : ℕ) → i < 127 → c (1026 + i) ≡ some (data_bits i)
  pub data_bits_IsBytes : (i : ℕ) → i < 127 → IsBytes (data_bits i)
  pub inode_free : used inode_slots c 0 ≡ false
  pub data_free : used data_slots c 0 ≡ false

pub made-IsStorable : IsStorable made.super_block
unfolding init_bitmap_and_block create disk_inode_pos
made-IsStorable = create-IsStorable total 1 2 (omega arith) (omega arith)

pub made-magic : made.super_block.magic ≡ fs_magic
unfolding create init_bitmap_and_block
made-magic = refl

pub made_again : init_bitmap_and_block made.super_block ≡ made
unfolding init_bitmap_and_block create
made_again = refl

-- What `create` returns, and the device it leaves: `open` finds the same file system on it, the
-- inode of the root has the members of `node`, and its block the entries `.` and `..`.
pub record IsFormatted (bs : BlockStore) (pad : Block) (node : DiskInode) (r : Fs × bs.State)
    : Type 0 where
  pub made_it : r.0 ≡ made
  pub good : bs.Good r.1
  pub super : bs.contents r.1 0 ≡ some (put_super pad made.super_block)
  pub opens : Leaves bs.Good bs.contents (open_fs bs r.1) made (bs.contents r.1)
  pub root_node : DiskInode
  pub reads : Leaves bs.Good bs.contents (read_inode bs root_pos r.1) root_node (bs.contents r.1)
  pub is_root : IsSame root_node node
  pub entries : bs.contents r.1 1153 ≡ some (root_block (λ o. pad (block_size + o)) 2)

module _ (bs : BlockStore) (now uid gid : ℕ) (pad : Block) (s : bs.State) (g : bs.Good s)
    (k : Blank (bs.contents s)) where
  open bs use {State, Good, contents, write}

  -- What the memory of the root's `DirBlock` holds before.
  abbrev stale : Block
  stale o = pad (block_size + o)

  abbrev with_super : ℕ → Option Block
  with_super j = if 0 == j then some (put_super pad bare.super_block) else contents s j

  first_super : Leaves Good contents (write 0 (put_super pad bare.super_block) s) tt with_super
  first_super = bs.write-Leaves s 0 (put_super pad bare.super_block) g k.super_there

  inode_Ready : Ready inode_slots with_super
  inode_Ready = record {
    block = λ i. k.bits;
    reads = λ i h. ap with_super {x = 1 + i} {y = 1} (omega arith) ∙ k.bits_there;
    bytes = λ i h. k.bits_IsBytes;
    fits = omega arith;
    ids_fit = omega arith;
  }

  abbrev with_inode : ℕ → Option Block
  with_inode =
      after_alloc bs inode_slots with_super inode_Ready 0 (omega arith) k.inode_free
        (λ i l. absurd (omega arith))

  inode_taken : Leaves Good contents (alloc bs inode_slots first_super.after) 2 with_inode
  inode_taken =
      alloc-Leaves bs inode_slots with_super inode_Ready 0 (omega arith) k.inode_free
        (λ i l. absurd (omega arith)) first_super.after first_super.good first_super.holds

  data_Ready : Ready data_slots with_inode
  data_Ready = record {
    block = k.data_bits;
    reads = λ i h. ground (arith, k.data_bits_there i h);
    bytes = k.data_bits_IsBytes;
    fits = omega arith;
    ids_fit = omega arith;
  }

  abbrev with_data : ℕ → Option Block
  with_data =
      after_alloc bs data_slots with_inode data_Ready 0 (omega arith) k.data_free
        (λ i l. absurd (omega arith))

  data_taken : Leaves Good contents (alloc bs data_slots inode_taken.after) 1153 with_data
  data_taken =
      alloc-Leaves bs data_slots with_inode data_Ready 0 (omega arith) k.data_free
        (λ i l. absurd (omega arith)) inode_taken.after inode_taken.good inode_taken.holds

  abbrev root : DiskInode
  root = root_inode now uid gid 1153

  -- The time and the ids are stored in their widths.
  root-IsStorable : Saved.IsStorable root
  unfolding root_inode new_inode
  root-IsStorable = record {
    size = omega arith;
    access_time = omega arith;
    change_time = omega arith;
    modify_time = omega arith;
    uid = omega arith;
    gid = omega arith;
    link_cnt = omega arith;
    mode = omega arith;
    direct = λ i h. ground arith;
    indirect1 = omega arith;
    indirect2 = omega arith;
  }

  abbrev with_root : ℕ → Option Block
  with_root j = if 2 == j then some (put_inode k.inodes 256 root) else contents data_taken.after j

  root_written : Leaves Good contents (write_inode bs root_pos root data_taken.after) tt with_root
  root_written =
      write_inode-Leaves bs root_pos data_taken.after k.inodes data_taken.good
        (data_taken.holds 2 ∙ k.inodes_there) root

  abbrev with_entries : ℕ → Option Block
  with_entries j = if 1153 == j then some (root_block stale 2) else contents root_written.after j

  entries_written :
      Leaves Good contents (write 1153 (root_block stale 2) root_written.after) tt with_entries
  entries_written =
      bs.write-Leaves root_written.after 1153 (root_block stale 2) root_written.good
        (root_written.holds 1153 ∙ data_taken.holds 1153 ∙ k.entries_there)

  second_super :
      Leaves Good contents (write 0 (put_super pad made.super_block) entries_written.after) tt (λ j.
        if 0 == j then some (put_super pad made.super_block) else contents entries_written.after j)
  second_super =
      bs.write-Leaves entries_written.after 0 (put_super pad made.super_block) entries_written.good
        (entries_written.holds 0 ∙ root_written.holds 0 ∙ data_taken.holds 0)

  create_fs-runs : create_fs bs now uid gid pad total 1 s ≡ (made, second_super.after)
  unfolding create_fs create_root alloc_inode alloc_data init_bitmap_and_block create disk_inode_pos
  create_fs-runs =
      rw
        (
          first_super.runs, inode_taken.runs, data_taken.runs, root_written.runs,
          entries_written.runs, second_super.runs,
        )
        refl

  -- On a good device that has the blocks that `create` writes to, where the first slots of both
  -- bitmaps are free, `create` with the program's counts returns the file system whose root has
  -- the first slot. The device is good, `open` finds that file system on it, the inode of the root
  -- is read back with the members that `createRoot` gave it, and its block has the two entries.
  pub create_fs-IsFormatted :
      IsFormatted bs pad (root_inode now uid gid 1153) (create_fs bs now uid gid pad total 1 s)
  unfolding init_bitmap_and_block create disk_inode_pos
  create_fs-IsFormatted =
      let w = second_super.after in
      let at_root : contents w 2 ≡ some (put_inode k.inodes 256 root) =
        second_super.holds 2 ∙ entries_written.holds 2 ∙ root_written.holds 2 in
      rw create_fs-runs (record {
        made_it = refl;
        good = second_super.good;
        super = second_super.holds 0;
        opens =
            open_fs-Leaves bs pad made.super_block w second_super.good (second_super.holds 0)
              made-IsStorable made-magic;
        root_node = get_inode (put_inode k.inodes 256 root) 256;
        reads =
            read_inode-Leaves bs root_pos w (put_inode k.inodes 256 root) second_super.good at_root;
        is_root = get_inode-put_inode k.inodes 256 root root-IsStorable;
        entries = second_super.holds 1153 ∙ entries_written.holds 1153;
      })
