-- ===== src/BlockCache.antt =====
-- `BlockCacheManager` of include/blk_cache.h and src/blk_cache.cpp, the block cache of a build
-- without BLOCK_CACHE, and `BlockDevice` of src/blk_dev.cpp over it. The manager keeps no block:
-- the state is the disk file.
pub mod Laws
pub mod Cached
use sbfs.Prelude.{ℕ, if◌then◌else◌, Option, none, some, M, and_then}
use sbfs.Block.{Block}
use sbfs.Storage.{Storage}

module _ (st : Storage) where
  open st use {Disk, pread, pwrite}

  pub write_to_disk : ℕ → Block → M Disk (Unit {0})
  write_to_disk id b d = let (done, d') = pwrite d id b in (if done then some tt else none, d')

  -- The result of the write is not tested.
  pub upsert : ℕ → Block → M Disk (Unit {0})
  unfolding write_to_disk
  upsert id b d = (some tt, (write_to_disk id b d).1)

  pub get : ℕ → M Disk Block
  get id d = (none, d)

  pub remove : ℕ → M Disk (Unit {0})
  remove id d = (some tt, d)

  pub sync : ℕ → M Disk (Unit {0})
  sync id d = (some tt, d)

  pub sync_all : M Disk (Unit {0})
  sync_all d = (some tt, d)

  -- `BlockDevice::read`: a block that is read goes to the cache, whose result is ignored.
  read_missed : ℕ → M Disk Block
  unfolding upsert
  read_missed id d = and_then (pread d id, d) (λ b d'. (some b, (upsert id b d').1))

  read_cached : ℕ → Option Block × Disk → Option Block × Disk
  unfolding read_missed
  read_cached id (some b, d) = (some b, d)
  read_cached id (none, d) = read_missed id d

  pub read : ℕ → M Disk Block
  unfolding read_cached get
  read id d = read_cached id (get id d)

  -- `BlockDevice::write`.
  pub write : ℕ → Block → M Disk (Unit {0})
  unfolding upsert
  write id b d = upsert id b d
