-- ===== src/Inode/Links.antt =====
-- `Inode::remove`, `link` and `unlink` of src/inode.cpp.
use sbfs.Prelude.{
  ℕ, ◌+◌, ◌-◌, ◌*◌, ◌%◌, ◌^◌, Bool, ◌&&◌, none, some, ◌==◌, if◌then◌else◌, M, pure, fail, ◌>>=◌,
  ◌>>◌,
}
use sbfs.Block.{Block, block_size}
use sbfs.Store.{BlockStore}
use sbfs.Bitmap.{sub32}
use sbfs.Position.{Position}
use sbfs.Path.{Str}
use sbfs.Layout.{Fs, disk_inode_pos, disk_inode_id, free_inode}
use sbfs.DiskInode.{DiskInode, total_blocks}
use sbfs.DiskInode.Bytes.{read_inode, write_inode}
use sbfs.DiskInode.Data
use sbfs.DiskInode.Resize
use sbfs.Inode.Entries.{entry_bytes, entries_in_block, fresh_block, new_entry, entry_inode}
use sbfs.Inode.{on_inode, Target, lift, fill, search, append_entry}

module _ (bs : BlockStore) (fs : Fs) (now : ℕ) where
  open bs use {State, read, write}

  -- The last entry goes to the place of entry `j` of block `i`, unless that is the last place of
  -- the last block.
  move_last : (i j : ℕ) → DiskInode → M State DiskInode
  move_last i j d =
      if (i + 1 == total_blocks d.size) && (j + 1 == entries_in_block) then pure d else (do
        ((_, last), d') ←
            on_inode d (Data.read_data bs now (sub32 d.size entry_bytes) fresh_block entry_bytes)
        (_, d'') ←
            on_inode d' (
              Data.write_data bs now ((i * block_size + j * entry_bytes) % 2 ^ 32) last entry_bytes)
        pure d'')

  -- The directory gives its last entry back. Its inode is written by `decrease`.
  drop_entry : Position → DiskInode → M State (Unit {0})
  drop_entry pos d = do
    (_, d') ← on_inode d (Resize.resize bs fs.data_bitmap now (some pos) (sub32 d.size entry_bytes))
    pure tt

  -- Counters of links are `uint16_t`.
  abbrev links : DiskInode → (delta : ℕ) → DiskInode
  links d delta = record d { link_cnt = (d.link_cnt + delta) % 2 ^ 16 }

  abbrev minus_one : ℕ
  minus_one = 2 ^ 16 - 1

  -- Where other links are left, the counter that was decremented is not written.
  remove_found : Position → (i j : ℕ) → Block → DiskInode → M State (Unit {0})
  unfolding move_last drop_entry
  remove_found pos i j buf d = do
    gone ← read_inode bs (disk_inode_pos fs (entry_inode buf j))
    if (links gone minus_one).link_cnt == 0
        then (do
          d' ← move_last i j d
          drop_entry pos d'
          free_inode bs fs (entry_inode buf j)
          (_, gone') ← on_inode (links gone minus_one) (Resize.resize bs fs.data_bitmap now none 0)
          pure tt)
        else write_inode bs pos d

  pub remove : Position → Str → M State (Unit {0})
  unfolding search remove_found
  remove pos name = do
    (hit, d) ← search bs fs now pos name
    elim hit [ none ↦ fail | some (i, j, buf) ↦ remove_found pos i j buf d ]

  -- One link more, or less, of an inode.
  count_link : Position → (delta : ℕ) → M State (Unit {0})
  count_link pos delta = do d ← read_inode bs pos; write_inode bs pos (links d delta)

  link_at :
      Position → Str → Position → (replace : Bool) → (i j : ℕ) → DiskInode → M State (Unit {0})
  unfolding count_link
  link_at pos name target replace i j d =
      if replace
      then (do
        count_link target 1
        (_, d') ← on_inode d (
            Data.write_data bs now ((i * block_size + j * entry_bytes) % 2 ^ 32)
              (new_entry name (disk_inode_id fs target)) entry_bytes)
        write_inode bs pos d')
      else fail

  link_new : Position → Str → Position → DiskInode → M State (Unit {0})
  unfolding count_link append_entry
  link_new pos name target d = do
    count_link target 1
    d' ← append_entry bs fs now name (disk_inode_id fs target) d
    write_inode bs pos d'

  pub link : Position → Str → (target : Position) → (replace : Bool) → M State (Unit {0})
  unfolding search link_at link_new
  link pos name target replace = do
    (hit, d) ← search bs fs now pos name
    elim hit [
      | none ↦ link_new pos name target d
      | some (i, j, buf) ↦ link_at pos name target replace i j d
    ]

  -- The entry goes; then the inode that it names has one link less.
  unlink_found : Position → (i j : ℕ) → Block → DiskInode → M (Target State) (Unit {0})
  unfolding move_last drop_entry count_link
  unlink_found pos i j buf d = do
    fill (disk_inode_pos fs (entry_inode buf j))
    d' ← lift (move_last i j d)
    lift (drop_entry pos d')
    lift (count_link (disk_inode_pos fs (entry_inode buf j)) minus_one)

  pub unlink : Position → Str → M (Target State) (Unit {0})
  unfolding search unlink_found
  unlink pos name = do
    (hit, d) ← lift (search bs fs now pos name)
    elim hit [ none ↦ fail | some (i, j, buf) ↦ unlink_found pos i j buf d ]
