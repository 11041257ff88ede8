-- ===== src/Vfs/Session.antt =====
-- The handlers as `main` of src/main.cpp registers them in `sb_op`: the calls of libfuse that reach
-- src/vfs.cpp, one after the other under its mutex.
pub mod Changes
pub mod Handles
use sbfs.Prelude.{ℕ, List, [], ◌∷◌, M}
use sbfs.Store.{BlockStore}
use sbfs.Layout.{Fs}
use sbfs.Vfs.{Vfs, Reply, done, error, crash, Handler, ◌>>=◌, ◌>>◌, reply}
use sbfs.Vfs.Attributes
use sbfs.Vfs.Directories
use sbfs.Vfs.Files
use sbfs.Vfs.Rename
use sbfs.Vfs.Requests.{
  Request, readdir, rmdir, unlink, open_file, getattr, mkdir, create, rename, release, read, write,
  truncate, fsync, utimens, chmod, chown, statfs, Result, nothing, names, stat, number, bytes,
  statvfs, Call,
}

module _ {S : Type 0} where
  go_on : Reply Result × Vfs S → (Vfs S → Reply (Unit {0}) × Vfs S) → Reply (Unit {0}) × Vfs S
  go_on (done _, v) k = k v
  go_on (error _, v) k = k v
  go_on (crash, v) k = (crash, v)

module _ (bs : BlockStore) (fs : Fs) where
  open bs use {State}

  -- `to_seconds` is the conversion that `sb_utimens` makes on `double`.
  module _ (sync_block : ℕ → M State (Unit {0})) (sync_all : M State (Unit {0}))
      (to_seconds : ℕ × ℕ → ℕ) where
    pub answer : (now uid gid : ℕ) → Request → Handler State Result
    answer now uid gid (readdir path) = do
      l ← Directories.readdir bs fs now uid gid path
      reply (names l)
    answer now uid gid (rmdir path) = Directories.rmdir bs fs now uid gid path >> reply nothing
    answer now uid gid (unlink path) = Files.unlink bs fs now path >> reply nothing
    answer now uid gid (open_file path) = do fh ← Files.open_file bs fs now path; reply (number fh)
    answer now uid gid (getattr path fi) = do
      s ← Attributes.getattr bs fs now path fi
      reply (stat s)
    answer now uid gid (mkdir path mode) =
        Directories.mkdir bs fs now uid gid path mode >> reply nothing
    answer now uid gid (create stale path mode) = do
      fh ← Files.create bs fs now stale uid gid path mode
      reply (number fh)
    answer now uid gid (rename old_path new_path flags) =
        Rename.rename bs fs now old_path new_path flags >> reply nothing
    answer now uid gid (release fh) = do n ← Files.release fh; reply (number n)
    answer now uid gid (read buf size offset fh) = do
      r ← Files.read bs fs now buf size offset fh
      reply (bytes r)
    answer now uid gid (write buf size offset fh) = do
      n ← Files.write bs fs now buf size offset fh
      reply (number n)
    answer now uid gid (truncate path size fi) =
        Files.truncate bs fs now path size fi >> reply nothing
    answer now uid gid (fsync datasync fh) =
        Files.fsync bs fs now sync_block sync_all datasync fh >> reply nothing
    answer now uid gid (utimens path tv0 tv1 fi) =
        Attributes.utimens bs fs now to_seconds path tv0 tv1 fi >> reply nothing
    answer now uid gid (chmod path mode fi) =
        Attributes.chmod bs fs now path mode fi >> reply nothing
    answer now uid gid (chown path u g fi) = Attributes.chown bs fs now path u g fi >> reply nothing
    answer now uid gid statfs = do s ← Attributes.statfs; reply (statvfs s)

    pub serve : Call → Vfs State → Reply Result × Vfs State
    unfolding answer
    serve c = answer c.now c.uid c.gid c.request

    -- A sequence of calls. A crash ends the process, and with it the sequence.
    unfoldable pub serve_all : List Call → Vfs State → Reply (Unit {0}) × Vfs State
    unfolding serve go_on
    serve_all [] v = (done tt, v)
    serve_all (c ∷ calls) v = go_on (serve c v) (serve_all calls)
