-- ===== src/Inode.antt =====
-- `Inode` of include/inode.h and src/inode.cpp: the operations on files and directories, over the
-- disk inode, the bitmaps and the block device. An operation reads the clock once, as `now`.
pub mod Entries
pub mod Links
pub mod Locate
pub mod Find
pub mod Written
pub mod ReadBack
pub mod Create
pub mod Grown
use sbfs.Prelude.{
  ℕ, zero, suc, ◌+◌, ◌*◌, ◌%◌, ◌^◌, Bool, true, false, Option, none, some, ltb, if◌then◌else◌, M,
  pure, fail, ◌>>=◌, ◌>>◌,
}
use sbfs.Block.{Block, block_size}
use sbfs.Store.{BlockStore}
use sbfs.Bitmap.{sub32}
use sbfs.Position.{Position, u32_max}
use sbfs.Path.{Str}
use sbfs.Layout.{Fs, disk_inode_pos, disk_inode_id, alloc_inode}
use sbfs.DiskInode.{DiskInode, DiskInodeType, file, directory, Task, total_blocks}
use sbfs.DiskInode.Bytes.{read_inode, write_inode}
use sbfs.DiskInode.Data
use sbfs.DiskInode.Data.{sync_data}
use sbfs.DiskInode.Resize
use sbfs.Inode.Entries.{
  entry_bytes, entries_in_block, fresh_block, new_entry, dot_entries, entry_inode, find_entry,
}

abbrev pub is_directory : DiskInodeType → Bool
is_directory file = false
is_directory directory = true

module _ {S : Type 0} where
  abbrev keep : {A : Type 0} → Option A × Task S → Option (A × DiskInode) × S
  keep (none, t) = (none, t.dev)
  keep (some a, t) = (some (a, t.node), t.dev)

  -- A method of a local `DiskInode`.
  abbrev pub on_inode : {A : Type 0} → DiskInode → M (Task S) A → M S (A × DiskInode)
  on_inode d m s = keep (m (record { node = d; dev = s }))

  -- The same, where the caller does not test the result.
  abbrev pub try_inode : {A : Type 0} → DiskInode → M (Task S) A → M S DiskInode
  try_inode d m s = let (_, t) = m (record { node = d; dev = s }) in (some t.node, t.dev)

  abbrev pub untested : Option ℕ × S → Option ℕ × S
  untested (none, s) = (some u32_max, s)
  untested (some id, s) = (some id, s)

  -- A block id that the caller does not compare with `kFail`.
  abbrev pub or_fail : M S ℕ → M S ℕ
  or_fail m s = untested (m s)

-- The `Inode *` that a function fills, beside the device.
pub record Target (S : Type 0) : Type 0 where
  pub inode : Option Position
  pub dev : S

module _ {S : Type 0} where
  abbrev with_target : {A : Type 0} → Option Position → Option A × S → Option A × Target S
  with_target p (a, s) = (a, record { inode = p; dev = s })

  abbrev pub lift : {A : Type 0} → M S A → M (Target S) A
  lift m t = with_target t.inode (m t.dev)

  abbrev pub fill : Position → M (Target S) (Unit {0})
  fill p t = (some tt, record t { inode = some p })

module _ (bs : BlockStore) (fs : Fs) (now : ℕ) where
  open bs use {State, read, write}

  pub read_data : Position → (offset : ℕ) → Block → (size : ℕ) → M State (ℕ × Block)
  read_data pos offset buf size = do
    d ← read_inode bs pos
    ((len, buf'), d') ← on_inode d (Data.read_data bs now offset buf size)
    write_inode bs pos d'
    pure (len, buf')

  pub write_data : Position → (offset : ℕ) → Block → (size : ℕ) → M State ℕ
  write_data pos offset buf size = do
    d ← read_inode bs pos
    d' ←
        if ltb d.size ((offset + size) % 2 ^ 32)
        then try_inode d (Resize.resize bs fs.data_bitmap now none ((offset + size) % 2 ^ 32))
        else pure d
    (len, d'') ← on_inode d' (Data.write_data bs now offset buf size)
    write_inode bs pos d''
    pure len

  pub resize : Position → (new_size : ℕ) → M State (Unit {0})
  resize pos new_size = do
    d ← read_inode bs pos
    if is_directory d.kind
        then fail
        else if ltb d.size new_size
        then (do
          (_, d') ← on_inode d (Resize.resize bs fs.data_bitmap now none new_size)
          write_inode bs pos d')
        else (do
          (_, d') ← on_inode d (Resize.resize bs fs.data_bitmap now (some pos) new_size)
          pure tt)

  -- The loop that `find`, `remove`, `link` and `unlink` share, over the `n` blocks from block `i`
  -- on: where an entry has the name, with the block read, or `none`. The buffer keeps from one block
  -- to the next what a short read leaves in it.
  pub locate : (n i : ℕ) → Str → DiskInode → Block → M State (Option (ℕ × ℕ × Block) × DiskInode)
  locate zero i name d buf = pure (none, d)
  locate (suc n) i name d buf = do
    ((_, buf'), d') ← on_inode d (Data.read_data bs now (i * block_size % 2 ^ 32) buf block_size)
    elim (find_entry entries_in_block 0 name buf') [
      | none ↦ locate n (i + 1) name d' buf'
      | some j ↦ pure (some (i, j, buf'), d')
    ]

  -- The disk inode of a directory, and the entry with the name.
  pub search : Position → Str → M State (Option (ℕ × ℕ × Block) × DiskInode)
  unfolding locate
  search pos name = do
    d ← read_inode bs pos
    if is_directory d.kind then locate (total_blocks d.size) 0 name d fresh_block else fail

  pub find : Position → Str → M State Position
  unfolding search
  find pos name = do
    (hit, _) ← search pos name
    elim hit [ none ↦ fail | some (i, j, buf) ↦ pure (disk_inode_pos fs (entry_inode buf j)) ]

  -- A new entry at the end of a directory.
  pub append_entry : Str → (id : ℕ) → DiskInode → M State DiskInode
  append_entry name id d = do
    (_, d') ←
        on_inode d (Resize.resize bs fs.data_bitmap now none ((d.size + entry_bytes) % 2 ^ 32))
    (_, d'') ←
        on_inode d'
          (Data.write_data bs now (sub32 d'.size entry_bytes) (new_entry name id) entry_bytes)
    pure d''

  -- The entries `.` and `..` of a new directory.
  with_dots : Position → (id : ℕ) → DiskInode → M State DiskInode
  with_dots pos id d =
      if is_directory d.kind
      then (do
        (_, d') ←
            on_inode d
              (Resize.resize bs fs.data_bitmap now none ((d.size + entry_bytes * 2) % 2 ^ 32))
        (_, d'') ← on_inode d' (
            Data.write_data bs now (sub32 d'.size (entry_bytes * 2))
              (dot_entries id (disk_inode_id fs pos)) (entry_bytes * 2))
        pure d'')
      else pure d

  pub create : Position → Str → DiskInode → M (Target State) (Unit {0})
  create pos name child = do
    cur ← lift (read_inode bs pos)
    if is_directory cur.kind
        then (do
          id ← lift (or_fail (alloc_inode bs fs))
          fill (disk_inode_pos fs id)
          cur' ← lift (append_entry name id cur)
          child' ← lift (with_dots pos id child)
          lift (write_inode bs (disk_inode_pos fs id) child')
          lift (write_inode bs pos cur'))
        else fail

  pub sync :
      (sync_block : ℕ → M State (Unit {0})) → Position → (metadata : Bool) → M State (Unit {0})
  sync sync_block pos metadata = do
    d ← read_inode bs pos
    sync_data bs sync_block false d
    if metadata then sync_block pos.block_id else pure tt
