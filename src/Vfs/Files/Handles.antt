-- ===== src/Vfs/Files/Handles.antt =====
-- The handlers on a file handle that is open, and on one that is not.
use sbfs.Prelude.{ℕ, ◌≤◌, ◌≡◌, refl, ◌∙◌, ==_refl, le→not_ltb, M, none, some}
use sbfs.Block.{Block}
use sbfs.Store.{BlockStore}
use sbfs.Position.{Position, u32_max}
use sbfs.Layout.{Fs}
use sbfs.Fd.{get_fd, open_fd}
use sbfs.Fd.Counts.{Counts, close_fd-get, open_fd-get}
use sbfs.Vfs.{Vfs, done, error, ebadf}
use sbfs.Vfs.Files.{handle, open_handle, release, read, write, fsync}

handle-none :
    {S : Type 0} (fh : ℕ) (v : Vfs S) → get_fd fh v.fds ≡ none → handle fh v ≡ (error ebadf, v)
unfolding handle
handle-none fh v h = rw h refl

pub handle-some :
    {S : Type 0} (fh : ℕ) (p : Position) (v : Vfs S)
    → get_fd fh v.fds ≡ some p
    → handle fh v ≡ (done p, v)
unfolding handle
handle-some fh p v h = rw h refl

-- The handle that an open inode gets leads to the inode.
pub handle-open_handle :
    {S : Type 0} (p : Position) (v : Vfs S)
    → Counts v.fds
    → handle (open_fd p v.fds).0 (open_handle p v).1 ≡ (done p, (open_handle p v).1)
handle-open_handle p v c =
    let fh = (open_fd p v.fds).0 in
    handle-some fh p (open_handle p v).1 ((open_fd-get v.fds p fh c).1 ∙ rw (==_refl fh) refl)

module _ (bs : BlockStore) (fs : Fs) (now : ℕ) (sync_block : ℕ → M bs.State (Unit {0}))
    (sync_all : M bs.State (Unit {0})) where
  -- Where the invariant on handles and reference counts holds, after `release` of a handle, `read`
  -- and `write` of at most 2 ^ 32 - 1 bytes and `fsync` by that handle return `EBADF`, and change
  -- nothing.
  pub released-ebadf :
      (buf : Block) (size offset datasync fh : ℕ) (v : Vfs bs.State)
      → size ≤ u32_max
      → Counts v.fds
      → let w = (release fh v).1 in
        (read bs fs now buf size offset fh w ≡ (error ebadf, w))
        × (write bs fs now buf size offset fh w ≡ (error ebadf, w))
        × (fsync bs fs now sync_block sync_all datasync fh w ≡ (error ebadf, w))
  unfolding read write fsync release
  released-ebadf buf size offset datasync fh v h c =
      let w = (release fh v).1 in
      let gone = handle-none fh w (close_fd-get v.fds fh fh c ∙ rw (==_refl fh) refl) in
      (
        rw (le→not_ltb u32_max size h, gone) refl,
        rw (le→not_ltb u32_max size h, gone) refl,
        rw gone refl,
      )
