-- ===== src/Storage.antt =====
-- The disk file that include/blk_dev.h opens, as the kernel's `pread` and `pwrite` show it: the
-- one component of the block device whose code is not part of the repository.
use sbfs.Prelude.{ℕ, ◌≡◌, ◌≢◌, Bool, true, Option, some}
use sbfs.Block.{Block}

-- Offsets and lengths are whole blocks here, as in every call of the source.
pub record Storage : Type 1 where
  pub Disk : Type 0
  -- `none` where the call does not return `kBlockSize`.
  pub pread : Disk → ℕ → Option Block
  -- The flag tells whether the call returned `kBlockSize`.
  pub pwrite : Disk → ℕ → Block → Bool × Disk
  -- POSIX: a read that follows a completed write returns what was written.
  pub pread-pwrite_self :
      (d : Disk) (i : ℕ) (b : Block) → (pwrite d i b).0 ≡ true → pread (pwrite d i b).1 i ≡ some b
  -- A write, completed or not, touches no byte outside its range.
  pub pread-pwrite_ne :
      (d : Disk) (i j : ℕ) (b : Block) → i ≢ j → pread (pwrite d i b).1 j ≡ pread d j

-- No I/O error inside the file: where a block can be read, it can be written.
pub record IsHealthy (st : Storage) : Type 0 where
  pub writes :
      (d : st.Disk) (i : ℕ) (b c : Block) → st.pread d i ≡ some c → (st.pwrite d i b).0 ≡ true
