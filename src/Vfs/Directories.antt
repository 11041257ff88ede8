-- ===== src/Vfs/Directories.antt =====
-- The handlers of src/vfs.cpp for directories: `sb_mkdir`, `sb_readdir` and `sb_rmdir`.
pub mod Keeps
pub mod Others
use sbfs.Prelude.{
  ℕ, zero, suc, ◌+◌, ◌*◌, ◌%◌, ◌^◌, Bool, false, not, ◌&&◌, ◌||◌, ◌==◌, ltb, if◌then◌else◌, Option,
  none, some, List, [], ◌∷◌, ◌++◌, bit_and, bit_or,
}
use sbfs.Block.{Block, block_size}
use sbfs.Store.{BlockStore}
use sbfs.Position.{Position}
use sbfs.Path.{Str}
use sbfs.Layout.{Fs}
use sbfs.DiskInode.{DiskInode, directory, new_inode, total_blocks}
use sbfs.DiskInode.Bytes.{read_inode, write_inode}
use sbfs.DiskInode.Data
use sbfs.Inode.{Target, on_inode, create, find, is_directory}
use sbfs.Inode.Links.{remove}
use sbfs.Inode.Entries.{entry_bytes, entries_in_block, fresh_block, has_name}
use sbfs.Resolver.{remove_prefix}
use sbfs.Vfs.{
  Handler, enoent, enotdir, enotempty, ◌>>=◌, ◌>>◌, reply, refuse, attempt, run, or_error,
  on_resolver, split_from_last_slash, existing,
}

-- `mode & 0777`, set on top of the bits for the type.
abbrev pub with_mode : (mode : ℕ) → DiskInode → DiskInode
with_mode mode d = record d { mode = bit_or d.mode (bit_and mode 0o777) }

-- The C string at an offset of a block, which ends with the block at the latest.
pub c_string : (n o : ℕ) → Block → Str
c_string zero o b = []
c_string (suc n) o b = let rest = c_string n (o + 1) b in if b o == 0 then [] else b o ∷ rest

-- `DirEntry::isValid`.
pub is_entry : Block → (j : ℕ) → Bool
is_entry b j = not (b (entry_bytes * j) == 0)

-- The names that `filler` is called with, for the `n` entries from entry `j` on.
pub list_names : (n j : ℕ) → Block → List Str
unfolding c_string is_entry
list_names zero j b = []
list_names (suc n) j b =
    let rest = list_names n (j + 1) b in
    if is_entry b j
    then c_string (n * entry_bytes + entry_bytes) (entry_bytes * j) b ∷ rest
    else rest

-- The loop of `sb_rmdir` over the entries.
pub has_others : (n j : ℕ) → Block → Bool
unfolding is_entry
has_others zero j b = false
has_others (suc n) j b =
    let rest = has_others n (j + 1) b in
    (is_entry b j
      && not (has_name b (entry_bytes * j) (46 ∷ []))
      && not (has_name b (entry_bytes * j) (46 ∷ 46 ∷ [])))
    || rest

module _ {S : Type 0} where
  -- `Inode::create`, of which the caller ignores the result: what it fills, and `stale` where it
  -- fills nothing.
  abbrev pub filled : (stale : Position) → {A : Type 0} → Option A × Target S → Position × S
  filled stale (r, t) = elim t.inode [ none ↦ (stale, t.dev) | some p ↦ (p, t.dev) ]

module _ (bs : BlockStore) (fs : Fs) (now uid gid : ℕ) where
  open bs use {State}

  -- `parent_inode.create(child, &disk_inode, &child_inode)`; `stale` is what the variable
  -- `child_inode` holds before.
  pub create_child : (stale parent : Position) → Str → DiskInode → State → Position × State
  create_child stale parent child d s =
      filled stale (create bs fs now parent child d (record { inode = none; dev = s }))

  -- A failure of `create` is only logged.
  pub mkdir : Str → (mode : ℕ) → Handler State (Unit {0})
  unfolding create_child split_from_last_slash
  mkdir path mode = do
    p ← existing bs fs now (split_from_last_slash path).0
    _ ← run (
        create_child p p (split_from_last_slash path).1
          (with_mode mode (new_inode now uid gid directory)))
    reply tt

  -- `disk_inode` after `read_inode`, of which a failure is only logged: then it is what its
  -- constructor made.
  abbrev pub or_new : Option DiskInode → DiskInode
  or_new none = new_inode now uid gid directory
  or_new (some d) = d

  -- `Inode::read_data` of a whole block, of which a failure is only logged: the buffer then has
  -- what was read before it.
  abbrev stored : Position → Option ((ℕ × Block) × DiskInode) × State → Block × State
  stored pos (none, s) = (fresh_block, s)
  stored pos (some ((len, b), d), s) = (b, (write_inode bs pos d s).1)

  abbrev loaded : Position → (offset : ℕ) → Option DiskInode × State → Block × State
  loaded pos offset (none, s) = (fresh_block, s)
  loaded pos offset (some d, s) =
      stored pos (on_inode d (Data.read_data bs now offset fresh_block block_size) s)

  pub read_dir_block : Position → (offset : ℕ) → State → Block × State
  read_dir_block pos offset s = loaded pos offset (read_inode bs pos s)

  -- The loop of `sb_readdir`, over the `n` blocks from block `i` on.
  pub list_blocks : (n i : ℕ) → Position → Handler State (List Str)
  unfolding read_dir_block list_names
  list_blocks zero i pos = reply []
  list_blocks (suc n) i pos = do
    b ← run (read_dir_block pos (i * block_size % 2 ^ 32))
    rest ← list_blocks n (i + 1) pos
    reply (list_names entries_in_block 0 b ++ rest)

  pub readdir : Str → Handler State (List Str)
  unfolding list_blocks
  readdir path = do
    p ← existing bs fs now path
    o ← attempt (read_inode bs p)
    if is_directory (or_new o).kind
        then list_blocks (total_blocks (or_new o).size) 0 p
        else refuse enotdir

  abbrev remove_child : Str → (parent : Position) → Handler State (Unit {0})
  remove_child path parent = do
    _ ← attempt (remove bs fs now parent (split_from_last_slash path).1)
    on_resolver (remove_prefix path)

  pub rmdir : Str → Handler State (Unit {0})
  unfolding read_dir_block has_others split_from_last_slash
  rmdir path = do
    p ← existing bs fs now (split_from_last_slash path).0
    c ← or_error enoent (find bs fs now p (split_from_last_slash path).1)
    o ← attempt (read_inode bs c)
    if not (is_directory (or_new o).kind)
        then refuse enotdir
        else if ltb 1 (total_blocks (or_new o).size)
        then refuse enotempty
        else (do
          b ← run (read_dir_block c 0)
          if has_others entries_in_block 0 b then refuse enotempty else remove_child path p)
