-- ===== src/Vfs/Files/Keeps.antt =====
-- The handlers for files, other than those that open and release a file, leave the table of
-- handles as it is.
use sbfs.Prelude.{ℕ, Option, none, some, M}
use sbfs.Block.{Block}
use sbfs.Store.{BlockStore}
use sbfs.Path.{Str}
use sbfs.Layout.{Fs}
use sbfs.Vfs.{ebadf, reply, refuse, existing}
use sbfs.Vfs.Keeps.{
  IsKeeping, bind-IsKeeping, existing-IsKeeping, found-IsKeeping, opened-IsKeeping, reply-IsKeeping,
  refuse-IsKeeping, die-IsKeeping, steps,
}
use sbfs.Vfs.Files.{handle, unlink, read, write, truncated, truncate, fsync}

module _ {S : Type 0} where
  handle-IsKeeping : (fh : ℕ) → IsKeeping {S = S} (handle fh)
  unfolding handle
  handle-IsKeeping fh =
      bind-IsKeeping (opened-IsKeeping fh)
        (λ p. found-IsKeeping p (refuse ebadf) reply (refuse-IsKeeping ebadf) reply-IsKeeping)

module _ (bs : BlockStore) (fs : Fs) (now : ℕ) where
  open bs use {State}

  pub unlink-IsKeeping : (path : Str) → IsKeeping (unlink bs fs now path)
  unfolding unlink
  unlink-IsKeeping path = search (steps, existing-IsKeeping)

  pub read-IsKeeping :
      (buf : Block) (size offset fh : ℕ) → IsKeeping (read bs fs now buf size offset fh)
  unfolding read
  read-IsKeeping buf size offset fh = search (steps, handle-IsKeeping)

  pub write-IsKeeping :
      (buf : Block) (size offset fh : ℕ) → IsKeeping (write bs fs now buf size offset fh)
  unfolding write
  write-IsKeeping buf size offset fh = search (steps, handle-IsKeeping)

  truncated-IsKeeping : (path : Str) (fi : Option ℕ) → IsKeeping (truncated bs fs now path fi)
  unfolding truncated
  truncated-IsKeeping path none = die-IsKeeping
  truncated-IsKeeping path (some fh) = bind-IsKeeping (opened-IsKeeping fh) (λ p.
      found-IsKeeping p (existing bs fs now path) reply (existing-IsKeeping bs fs now path)
        reply-IsKeeping)

  pub truncate-IsKeeping :
      (path : Str) (size : ℕ) (fi : Option ℕ) → IsKeeping (truncate bs fs now path size fi)
  unfolding truncate
  truncate-IsKeeping path size fi = search (steps, truncated-IsKeeping)

  pub fsync-IsKeeping :
      (sync_block : ℕ → M State (Unit {0})) (sync_all : M State (Unit {0})) (datasync fh : ℕ)
      → IsKeeping (fsync bs fs now sync_block sync_all datasync fh)
  unfolding fsync
  fsync-IsKeeping sync_block sync_all datasync fh = search (steps, handle-IsKeeping)
