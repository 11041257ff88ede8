-- ===== src/Device/Start.antt =====
-- The constructor of `BlockDevice`, src/blk_dev.cpp, over `open` and `ftruncate` of the kernel.
use sbfs.Prelude.{
  ℕ, ◌+◌, ◌*◌, ◌/◌, ◌%◌, ◌^◌, ◌≤◌, ◌<◌, ◌≡◌, ◌∙◌, ap, Bool, true, false, Option, none, some, arith,
}
use sbfs.Block.{Block, block_size}
use sbfs.Storage.{Storage}
use sbfs.Cache.{Device}
use sbfs.Cache.Valid.{Valid, view}
use sbfs.Cache.Start.{start, init_cache-Valid}

-- `kBlockCacheSize`.
abbrev block_cache_size : ℕ
block_cache_size = 768 * 1024 * 1024

abbrev pub cache_slots : ℕ
cache_slots = block_cache_size / block_size

module _ (st : Storage) where
  open st use {Disk, pread}

  -- `ftruncate` of the kernel; the flag tells whether the call succeeded.
  pub record Kernel : Type 0 where
    pub ftruncate : Disk → ℕ → Bool × Disk
    -- POSIX: the bytes below the new length stay.
    pub pread-ftruncate :
        (d : Disk) (size i : ℕ) (b : Block)
        → (ftruncate d size).0 ≡ true
        → (i + 1) * block_size ≤ size
        → pread d i ≡ some b
        → pread (ftruncate d size).1 i ≡ some b
    -- A file that is extended reads as zeros behind its old end.
    pub reads :
        (d : Disk) (size i : ℕ)
        → (ftruncate d size).0 ≡ true
        → (i + 1) * block_size ≤ size
        → (b : Block) × (pread (ftruncate d size).1 i ≡ some b)

  -- A `BlockDevice` with its member `num_data_blocks_`, which is not set where `ftruncate` failed.
  -- There is no device where `open` failed, so that each access to the file fails.
  pub record Opened : Type 0 where
    pub device : Option (Device st)
    pub num_data_blocks : Option ℕ

  sized : (size : ℕ) → (ℕ → Block) → Bool × Disk → Opened
  sized size fresh (false, d) = record {
    device = some (start st d cache_slots fresh);
    num_data_blocks = none;
  }
  sized size fresh (true, d) = record {
    device = some (start st d cache_slots fresh);
    num_data_blocks = some (size / block_size % 2 ^ 32);
  }

  -- `file` is what `open` returns, and `fresh` what `new Block` leaves in the blocks of the cache.
  unfoldable pub new_device :
      Kernel → (size : ℕ) → (fresh : ℕ → Block) → (file : Option Disk) → Opened
  unfolding sized
  new_device os size fresh none = record { device = none; num_data_blocks = none }
  new_device os size fresh (some d) = sized size fresh (os.ftruncate d size)

  -- Where the file can be opened and set to a size below 2 ^ 44 bytes, the device is valid and
  -- counts the whole blocks of the size; it has each of them, and the ones that the file had
  -- before are those of the file.
  pub new_device-Valid :
      (os : Kernel) (size : ℕ) (fresh : ℕ → Block) (d : Disk)
      → (os.ftruncate d size).0 ≡ true
      → size < 2 ^ 44
      → (v : Device st) × (new_device os size fresh (some d)
          ≡ record { device = some v; num_data_blocks = some (size / block_size) })
        × Valid st v
        × ((i : ℕ) → i < size / block_size → (b : Block) × (view st v i ≡ some b))
        × ((i : ℕ) (b : Block) → i < size / block_size → pread d i ≡ some b → view st v i ≡ some b)
  unfolding new_device sized
  new_device-Valid os size fresh d h small =
      let d' = (os.ftruncate d size).1 in
      let (valid, blocks) = init_cache-Valid st d' cache_slots fresh (omega arith) in
      (
        start st d' cache_slots fresh,
        ap (λ c. sized size fresh (c, d')) h
            ∙ ap
                (λ n. record {
                  device = some (start st d' cache_slots fresh);
                  num_data_blocks = some n;
                })
                (omega arith),
        valid,
        λ i l. let (b, e) = os.reads d size i h (omega arith) in (b, blocks i ∙ e),
        λ i b l e. blocks i ∙ os.pread-ftruncate d size i b h (omega arith) e,
      )

  -- The device has the blocks of the file that was set to the size.
  pub new_device-view :
      (os : Kernel) (size : ℕ) (fresh : ℕ → Block) (d : Disk)
      → (os.ftruncate d size).0 ≡ true
      → (w : Device st) × ((new_device os size fresh (some d)).device ≡ some w)
        × Valid st w
        × ((i : ℕ) → view st w i ≡ pread (os.ftruncate d size).1 i)
  unfolding new_device sized
  new_device-view os size fresh d h =
      let d' = (os.ftruncate d size).1 in
      let (valid, blocks) = init_cache-Valid st d' cache_slots fresh (omega arith) in
      (start st d' cache_slots fresh, ap (λ c. (sized size fresh (c, d')).device) h, valid, blocks)
