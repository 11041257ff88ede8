-- ===== src/Vfs/Files.antt =====
-- The handlers of src/vfs.cpp for files: `sb_create`, `sb_unlink`, `sb_open`, `sb_release`,
-- `sb_read`, `sb_write`, `sb_truncate`, `sb_fsync` and `sb_destroy`.
pub mod Opens
pub mod Keeps
pub mod Handles
pub mod ReadBack
use sbfs.Prelude.{ℕ, ◌%◌, ◌^◌, ◌==◌, ltb, if◌then◌else◌, Option, none, some, M}
use sbfs.Block.{Block}
use sbfs.Store.{BlockStore}
use sbfs.Position.{Position, u32_max}
use sbfs.Path.{Str}
use sbfs.Layout.{Fs}
use sbfs.DiskInode.{file, new_inode}
use sbfs.Inode
use sbfs.Inode.Links.{remove}
use sbfs.Fd.{open_fd, close_fd}
use sbfs.Resolver.{remove_prefix}
use sbfs.Vfs.{
  Vfs, done, Handler, enoent, eio, einval, ebadf, ◌>>=◌, ◌>>◌, reply, refuse, die, attempt, run,
  or_error, on_resolver, opened, split_from_last_slash, existing,
}
use sbfs.Vfs.Directories.{create_child, with_mode}

module _ {S : Type 0} where
  -- `fi->fh = fd_manager->open(inode)`, with the new `fi->fh` as the answer.
  abbrev pub open_handle : Position → Handler S ℕ
  open_handle p v = let (fh, fds) = open_fd p v.fds in (done fh, record v { fds = fds })

  unfoldable pub release : (fh : ℕ) → Handler S ℕ
  release fh v = (done 0, record v { fds = close_fd fh v.fds })

  -- The inode of a handle, or `EBADF`.
  pub handle : (fh : ℕ) → Handler S Position
  handle fh = do p ← opened fh; elim p [ none ↦ refuse ebadf | some inode ↦ reply inode ]

module _ (bs : BlockStore) (fs : Fs) (now : ℕ) where
  open bs use {State}

  -- `stale` is what the variable `child_inode` holds before `create`, whose failure is ignored.
  pub create : (stale : Position) → (uid gid : ℕ) → Str → (mode : ℕ) → Handler State ℕ
  create stale uid gid path mode = do
    p ← existing bs fs now (split_from_last_slash path).0
    c ← run (
        create_child bs fs now uid gid stale p (split_from_last_slash path).1
          (with_mode mode (new_inode now uid gid file)))
    open_handle c

  pub unlink : Str → Handler State (Unit {0})
  unlink path = do
    p ← existing bs fs now (split_from_last_slash path).0
    _ ← or_error enoent (Inode.find bs fs now p (split_from_last_slash path).1)
    _ ← attempt (remove bs fs now p (split_from_last_slash path).1)
    on_resolver (remove_prefix path)

  pub open_file : Str → Handler State ℕ
  open_file path = do p ← existing bs fs now path; open_handle p

  pub read : (buf : Block) → (size offset fh : ℕ) → Handler State (ℕ × Block)
  unfolding handle
  read buf size offset fh =
      if ltb u32_max size
      then refuse einval
      else (do p ← handle fh; or_error eio (Inode.read_data bs fs now p (offset % 2 ^ 32) buf size))

  pub write : (buf : Block) → (size offset fh : ℕ) → Handler State ℕ
  unfolding handle
  write buf size offset fh = if ltb u32_max size then refuse einval else (do
    p ← handle fh
    or_error eio (Inode.write_data bs fs now p (offset % 2 ^ 32) buf size))

  -- The inode of the handle, or of the path. `fi` is not tested.
  pub truncated : Str → (fi : Option ℕ) → Handler State Position
  truncated path none = die
  truncated path (some fh) = do
    p ← opened fh
    elim p [ none ↦ existing bs fs now path | some inode ↦ reply inode ]

  pub truncate : Str → (size : ℕ) → (fi : Option ℕ) → Handler State (Unit {0})
  unfolding truncated
  truncate path size fi =
      if ltb u32_max size
      then refuse einval
      else (do p ← truncated path fi; or_error eio (Inode.resize bs fs now p size))

  module _ (sync_block : ℕ → M State (Unit {0})) (sync_all : M State (Unit {0})) where
    pub fsync : (datasync fh : ℕ) → Handler State (Unit {0})
    unfolding handle
    fsync datasync fh = do
      p ← handle fh
      or_error eio (Inode.sync bs fs now sync_block p (datasync == 0))

    -- The device after `sync_all`; the rest of the state is freed.
    unfoldable pub destroy : Vfs State → State
    destroy v = (sync_all v.dev).1
