-- ===== src/Vfs/Directories/Keeps.antt =====
-- The handlers for directories leave the table of handles as it is.
use sbfs.Prelude.{ℕ, zero, suc}
use sbfs.Store.{BlockStore}
use sbfs.Position.{Position}
use sbfs.Path.{Str}
use sbfs.Layout.{Fs}
use sbfs.Vfs.Keeps.{IsKeeping, existing-IsKeeping, reply-IsKeeping, steps}
use sbfs.Vfs.Directories.{mkdir, readdir, rmdir, list_blocks}

module _ (bs : BlockStore) (fs : Fs) (now uid gid : ℕ) where
  pub mkdir-IsKeeping : (path : Str) (mode : ℕ) → IsKeeping (mkdir bs fs now uid gid path mode)
  unfolding mkdir
  mkdir-IsKeeping path mode = search (steps, existing-IsKeeping)

  list_blocks-IsKeeping : (n i : ℕ) (p : Position) → IsKeeping (list_blocks bs fs now uid gid n i p)
  unfolding list_blocks
  list_blocks-IsKeeping zero i p = reply-IsKeeping _
  list_blocks-IsKeeping (suc n) i p = search (steps, list_blocks-IsKeeping n)

  pub readdir-IsKeeping : (path : Str) → IsKeeping (readdir bs fs now uid gid path)
  unfolding readdir
  readdir-IsKeeping path = search (steps, existing-IsKeeping, list_blocks-IsKeeping)

  pub rmdir-IsKeeping : (path : Str) → IsKeeping (rmdir bs fs now uid gid path)
  unfolding rmdir
  rmdir-IsKeeping path = search (steps, existing-IsKeeping) depth 12
