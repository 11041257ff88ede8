-- ===== src/BlockCache/Cached.antt =====
-- Builds with the block cache, src/lru_cache.cpp, and without it, src/blk_cache.cpp, answer alike.
use sbfs.Prelude.{ℕ, ◌≡◌, List}
use sbfs.Storage.{Storage, IsHealthy}
use sbfs.Store.Calls
use sbfs.Store.Calls.{Call, Answer, AllThere, answers}
use sbfs.Cache.{Device}
use sbfs.Cache.Valid.{Valid, view}
use sbfs.Device.Laws.{device_store}
use sbfs.BlockCache.Laws.{plain_store}

module _ (st : Storage) (ok : IsHealthy st) where
  open st use {Disk, pread}

  unfoldable pub cached_answers : List Call → Device st → List Answer × Device st
  unfolding device_store
  cached_answers = answers (device_store st ok)

  unfoldable pub plain_answers : List Call → Disk → List Answer × Disk
  unfolding plain_store
  plain_answers = answers (plain_store st ok)

  -- On a healthy disk, where a valid cached device has the blocks of a disk file, a sequence of
  -- reads and writes of blocks that are there is answered alike by the cached device and by a
  -- device without a cache on that file. Then the cached device is valid, and both have the same
  -- blocks.
  pub cached_answers-plain_answers :
      (calls : List Call) (v : Device st) (d : Disk)
      → Valid st v
      → ((j : ℕ) → view st v j ≡ pread d j)
      → AllThere (pread d) calls
      → ((cached_answers calls v).0 ≡ (plain_answers calls d).0)
        × Valid st (cached_answers calls v).1
        × ((j : ℕ) → view st (cached_answers calls v).1 j ≡ pread (plain_answers calls d).1 j)
  unfolding cached_answers plain_answers device_store plain_store
  cached_answers-plain_answers calls v d k same there =
      Calls.answers-same (device_store st ok) (plain_store st ok) calls v d k tt same there
