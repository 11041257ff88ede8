-- ===== src/Device.antt =====
-- `BlockDevice` of include/blk_dev.h and src/blk_dev.cpp, built with BLOCK_CACHE and NDEBUG.
pub mod Laws
pub mod Batch
pub mod Start
use sbfs.Prelude.{ℕ, List, [], ◌∷◌, Option, none, some, M, and_then}
use sbfs.Block.{Block}
use sbfs.Storage.{Storage}
use sbfs.Cache
use sbfs.Cache.{Device, Cache}

module _ (st : Storage) where
  -- A miss reads the file, and hands the block to the cache, whose result is ignored.
  read_missed : ℕ → M (Device st) Block
  read_missed id v =
      and_then (Cache.read_from_disk st id v) (λ b w. (some b, (Cache.upsert st id b w).1))

  read_cached : ℕ → Option Block × Device st → Option Block × Device st
  unfolding read_missed
  read_cached id (some b, v) = (some b, v)
  read_cached id (none, v) = read_missed id v

  pub read : ℕ → M (Device st) Block
  unfolding read_cached
  read id v = read_cached id (Cache.get st id v)

  pub write : ℕ → Block → M (Device st) (Unit {0})
  write id b = Cache.upsert st id b

  -- The parallel vectors of `write_tx` are one list of pairs.
  pub write_tx : List (ℕ × Block) → M (Device st) (Unit {0})
  unfolding write
  write_tx [] v = (some tt, v)
  write_tx ((id, b) ∷ rest) v = and_then (write id b v) (λ _ w. write_tx rest w)

  pub sync : ℕ → M (Device st) (Unit {0})
  sync id = Cache.sync st id

  unfoldable pub sync_all : M (Device st) (Unit {0})
  sync_all = Cache.sync_all st
