-- ===== src/Vfs/Session/Changes.antt =====
-- What a request does to the table of handles.
use mathlib.Core.Path.{subst}
use sbfs.Prelude.{ℕ, sym, inl, inr, M}
use sbfs.Store.{BlockStore}
use sbfs.Position.{Inode}
use sbfs.Layout.{Fs}
use sbfs.Fd.{FdManager, open_fd, close_fd}
use sbfs.Vfs.{Vfs}
use sbfs.Vfs.Keeps.{IsKeeping, steps}
use sbfs.Vfs.Attributes.Keeps.{
  getattr-IsKeeping, chmod-IsKeeping, chown-IsKeeping, utimens-IsKeeping, statfs-IsKeeping,
}
use sbfs.Vfs.Directories.Keeps.{mkdir-IsKeeping, readdir-IsKeeping, rmdir-IsKeeping}
use sbfs.Vfs.Files
use sbfs.Vfs.Files.Keeps.{
  unlink-IsKeeping, read-IsKeeping, write-IsKeeping, truncate-IsKeeping, fsync-IsKeeping,
}
use sbfs.Vfs.Files.Opens.{Longer, after-IsOpening, open_file-IsOpening, create-IsOpening}
use sbfs.Vfs.Rename.Keeps.{rename-IsKeeping}
use sbfs.Vfs.Requests.{
  Request, readdir, rmdir, unlink, open_file, getattr, mkdir, create, rename, release, read, write,
  truncate, fsync, utimens, chmod, chown, statfs,
}
use sbfs.Vfs.Session.{answer}

-- The table before a request and after it.
pub data Change : Request → FdManager → FdManager → Type 0 where
  kept : {r : Request} {f : FdManager} → Change r f f
  opened : {r : Request} {f : FdManager} → (i : Inode) → Change r f (open_fd i f).1
  closed : {f : FdManager} → (fh : ℕ) → Change (release fh) f (close_fd fh f)

module _ (bs : BlockStore) (fs : Fs) where
  open bs use {State}

  module _ (sync_block : ℕ → M State (Unit {0})) (sync_all : M State (Unit {0}))
      (to_seconds : ℕ × ℕ → ℕ) (now uid gid : ℕ) (v : Vfs State) where
    from_same :
        (r : Request)
        → IsKeeping (answer bs fs sync_block sync_all to_seconds now uid gid r)
        → Change r v.fds (answer bs fs sync_block sync_all to_seconds now uid gid r v).1.fds
    from_same r k = subst (Change r v.fds) (sym (k.same v)) kept

    from_longer : (r : Request) (g : FdManager) → Longer v.fds g → Change r v.fds g
    from_longer r g (inl e) = subst (Change r v.fds) (sym e) kept
    from_longer r g (inr (i, e)) = subst (Change r v.fds) (sym e) (opened i)

    pub answer-Change :
        (r : Request)
        → Change r v.fds (answer bs fs sync_block sync_all to_seconds now uid gid r v).1.fds
    unfolding answer Files.release
    answer-Change (readdir path) = from_same (readdir path) (search (steps, readdir-IsKeeping))
    answer-Change (rmdir path) = from_same (rmdir path) (search (steps, rmdir-IsKeeping))
    answer-Change (unlink path) = from_same (unlink path) (search (steps, unlink-IsKeeping))
    answer-Change (open_file path) =
        from_longer (open_file path) _
          ((after-IsOpening (open_file-IsOpening bs fs now path) (λ fh. search steps)).grows v)
    answer-Change (getattr path fi) =
        from_same (getattr path fi) (search (steps, getattr-IsKeeping))
    answer-Change (mkdir path mode) = from_same (mkdir path mode) (search (steps, mkdir-IsKeeping))
    answer-Change (create stale path mode) = from_longer (create stale path mode) _ (
        (after-IsOpening (create-IsOpening bs fs now stale uid gid path mode)
            (λ fh. search steps)).grows
          v)
    answer-Change (rename old_path new_path flags) =
        from_same (rename old_path new_path flags) (search (steps, rename-IsKeeping))
    answer-Change (release fh) = closed fh
    answer-Change (read buf size offset fh) =
        from_same (read buf size offset fh) (search (steps, read-IsKeeping))
    answer-Change (write buf size offset fh) =
        from_same (write buf size offset fh) (search (steps, write-IsKeeping))
    answer-Change (truncate path size fi) =
        from_same (truncate path size fi) (search (steps, truncate-IsKeeping))
    answer-Change (fsync datasync fh) =
        from_same (fsync datasync fh) (search (steps, fsync-IsKeeping))
    answer-Change (utimens path tv0 tv1 fi) =
        from_same (utimens path tv0 tv1 fi) (search (steps, utimens-IsKeeping))
    answer-Change (chmod path mode fi) =
        from_same (chmod path mode fi) (search (steps, chmod-IsKeeping))
    answer-Change (chown path u g fi) =
        from_same (chown path u g fi) (search (steps, chown-IsKeeping))
    answer-Change statfs = from_same statfs (search (steps, statfs-IsKeeping))
