-- ===== src/Vfs/Requests.antt =====
-- The requests of libfuse that `main` of src/main.cpp registers handlers for, with the arguments of
-- the handlers as include/vfs.h declares them.
use sbfs.Prelude.{ℕ, Option, List}
use sbfs.Block.{Block}
use sbfs.Position.{Position}
use sbfs.Path.{Str}
use sbfs.Vfs.Attributes.{Stat, Statvfs}

-- The arguments of the handlers; `fi` is the handle in `fuse_file_info`, which may be null.
pub data Request : Type 0 where
  readdir rmdir unlink open_file : (path : Str) → Request
  getattr : (path : Str) → (fi : Option ℕ) → Request
  mkdir : (path : Str) → (mode : ℕ) → Request
  -- `stale` is what the variable `child_inode` of the handler holds.
  create : (stale : Position) → (path : Str) → (mode : ℕ) → Request
  rename : (old_path new_path : Str) → (flags : ℕ) → Request
  release : (fh : ℕ) → Request
  read write : (buf : Block) → (size offset fh : ℕ) → Request
  truncate : (path : Str) → (size : ℕ) → (fi : Option ℕ) → Request
  fsync : (datasync fh : ℕ) → Request
  utimens : (path : Str) → (tv0 tv1 : ℕ × ℕ) → (fi : Option ℕ) → Request
  chmod : (path : Str) → (mode : ℕ) → (fi : Option ℕ) → Request
  chown : (path : Str) → (uid gid : ℕ) → (fi : Option ℕ) → Request
  statfs : Request

-- What libfuse gets back beside the error number.
pub data Result : Type 0 where
  nothing : Result
  names : List Str → Result
  stat : Stat → Result
  number : ℕ → Result
  bytes : ℕ × Block → Result
  statvfs : Statvfs → Result

-- A request, the time, and the ids of the process that asks.
pub record Call : Type 0 where
  pub request : Request
  pub now : ℕ
  pub uid : ℕ
  pub gid : ℕ
