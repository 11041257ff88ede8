-- ===== src/DiskInode/Data.antt =====
-- `DiskInode::read_data`, `write_data` and `sync_data`. A variable of type `int` is the `uint32_t`
-- with its bits. A buffer is its bytes, by their offsets. Where `offset + len` wraps around within
-- one block, the source calls `memcpy` with a negative length; the model then copies nothing.
pub mod Copy
pub mod Range
pub mod Read
pub mod Write
pub mod Written
use sbfs.Prelude.{
  ℕ, zero, suc, ◌+◌, ◌-◌, ◌*◌, ◌/◌, ◌%◌, ◌^◌, Bool, true, false, some, ◌==◌, ltb, leb,
  if◌then◌else◌, ◌&&◌, ◌<◌, ◌≡◌, refl, lt→ltb, arith, M, pure, fail, ◌>>=◌, ◌>>◌,
}
use sbfs.Block.{Block, block_size}
use sbfs.Store.{BlockStore}
use sbfs.DiskInode.{
  DiskInode, Task, on_node, on_dev, entry, data_blocks, total_blocks, update_meta, block_id,
}

-- `memcpy` of `n` bytes from offset `i` of `src` to offset `j` of `dst`.
unfoldable pub copy : (n i j : ℕ) → (src dst : ℕ → ℕ) → ℕ → ℕ
copy n i j src dst q = if leb j q && ltb q (j + n) then src (i + (q - j)) else dst q

-- The length that is left within the size.
unfoldable pub clip : (size offset len : ℕ) → ℕ
clip size offset len = if leb size ((offset + len) % 2 ^ 32) then size - offset else len

-- `l / kBlockSize` as an `int`: `l` is taken as an `int` first, so from `2 ^ 31` on the quotient is
-- negative. `l % kBlockSize` does not depend on that.
unfoldable pub block_no : ℕ → ℕ
block_no l = if ltb l (2 ^ 31) then l / block_size else l / block_size + (2 ^ 32 - 2 ^ 20)

-- The rounds of `for (int i = lid + 1; i < rid; ++i)`.
unfoldable pub rounds : (lid rid : ℕ) → ℕ
rounds lid rid = (rid + 2 ^ 31) % 2 ^ 32 - (lid + 1 + 2 ^ 31) % 2 ^ 32

-- Below `2 ^ 31` the numbers of the blocks are not negative.
pub block_no_small : (l : ℕ) → l < 2 ^ 31 → block_no l ≡ l / block_size
unfolding block_no
block_no_small l h = rw (lt→ltb l (2 ^ 31) h) refl

pub rounds_small : (lid rid : ℕ) → lid < 2 ^ 30 → rid < 2 ^ 30 → rounds lid rid ≡ rid - (lid + 1)
unfolding rounds
rounds_small lid rid h k = omega arith

module _ (bs : BlockStore) where
  open bs use {State, read, write}

  abbrev pub lookup : DiskInode → ℕ → M State ℕ
  lookup d i s = let (id, s') = block_id bs d i s in (some id, s')

  -- One block of the file, copied into the buffer.
  unfoldable pub read_part : DiskInode → (id n from at : ℕ) → (ℕ → ℕ) → M State (ℕ → ℕ)
  read_part d id n from at buf = do blk ← lookup d id; b ← read blk; pure (copy n from at b buf)

  unfoldable pub read_middle : (n : ℕ) → DiskInode → (id at : ℕ) → (ℕ → ℕ) → M State (ℕ → ℕ)
  unfolding read_part
  read_middle zero d id at buf = pure buf
  read_middle (suc n) d id at buf = do
    buf' ← read_part d (id % 2 ^ 32) block_size 0 at buf
    read_middle n d (id + 1) (at + block_size) buf'

  -- From offset `loff` of block `lid` to offset `roff` of a later block `rid`.
  unfoldable pub read_span : DiskInode → (lid rid loff roff : ℕ) → (ℕ → ℕ) → M State (ℕ → ℕ)
  unfolding read_part read_middle rounds
  read_span d lid rid loff roff buf = do
    first ← read_part d lid (block_size - loff) loff 0 buf
    most ← read_middle (rounds lid rid) d (lid + 1) (block_size - loff) first
    if ltb 0 roff
        then read_part d rid roff 0 (block_size - loff + rounds lid rid * block_size) most
        else pure most

  unfoldable pub read_range : DiskInode → (l r : ℕ) → (ℕ → ℕ) → M State (ℕ → ℕ)
  unfolding read_part read_span block_no
  read_range d l r buf =
      let lid = block_no l in
      let rid = block_no r in
      let loff = l % block_size in
      let roff = r % block_size in
      if lid == rid
      then read_part d lid (roff - loff) loff 0 buf
      else read_span d lid rid loff roff buf

  unfoldable pub read_data : (now offset : ℕ) → (ℕ → ℕ) → (len : ℕ) → M (Task State) (ℕ × (ℕ → ℕ))
  unfolding clip
  read_data now offset buf len t =
      (do
        on_node (update_meta now true false false)
        if len == 0 then pure (0, buf) else if ltb t.node.size offset then fail else (do
          buf' ←
              on_dev
                (read_range t.node offset ((offset + clip t.node.size offset len) % 2 ^ 32) buf)
          pure (clip t.node.size offset len, buf')))
        t

  -- A part of one block of the file, from the buffer.
  write_part : DiskInode → (id n from at : ℕ) → (ℕ → ℕ) → M State Block
  unfolding copy
  write_part d id n from at buf = do
    blk ← lookup d id
    b ← read blk
    write blk (copy n from at buf b)
    pure (copy n from at buf b)

  -- The whole blocks. They are copied over the block the block before.
  write_middle : (n : ℕ) → DiskInode → (id from : ℕ) → (buf last : ℕ → ℕ) → M State (Unit {0})
  unfolding copy
  write_middle zero d id from buf last = pure tt
  write_middle (suc n) d id from buf last = do
    blk ← lookup d (id % 2 ^ 32)
    write blk (copy block_size from 0 buf last)
    write_middle n d (id + 1) (from + block_size) buf (copy block_size from 0 buf last)

  -- From offset `loff` of block `lid` to offset `roff` of block `rid`, with `between` blocks
  -- between them.
  write_span : DiskInode → (lid rid between loff roff : ℕ) → (ℕ → ℕ) → M State (Unit {0})
  unfolding write_part write_middle
  write_span d lid rid between loff roff buf =
      if lid == rid then (do _ ← write_part d lid (roff - loff) 0 loff buf; pure tt) else (do
        last ← write_part d lid (block_size - loff) 0 loff buf
        write_middle between d (lid + 1) (block_size - loff) buf last
        if ltb 0 roff
            then (do
              _ ← write_part d rid roff (block_size - loff + between * block_size) 0 buf
              pure tt)
            else pure tt)

  write_range : DiskInode → (l r : ℕ) → (ℕ → ℕ) → M State (Unit {0})
  unfolding write_span block_no rounds
  write_range d l r buf =
      let lid = block_no l in
      let rid = block_no r in
      write_span d lid rid (rounds lid rid) (l % block_size) (r % block_size) buf

  pub write_data : (now offset : ℕ) → (ℕ → ℕ) → (len : ℕ) → M (Task State) ℕ
  unfolding clip write_range
  write_data now offset buf len t =
      (do
        on_node (update_meta now true true false)
        if len == 0 then pure 0 else if ltb t.node.size offset then fail else (do
          on_dev (write_range t.node offset ((offset + clip t.node.size offset len) % 2 ^ 32) buf)
          pure (clip t.node.size offset len)))
        t

  module _ (sync : ℕ → M State (Unit {0})) where
    sync_blocks : (n i : ℕ) → DiskInode → M State (Unit {0})
    sync_blocks zero i d = pure tt
    sync_blocks (suc n) i d = do blk ← lookup d i; sync blk; sync_blocks n (i + 1) d

    sync_entries : (n i : ℕ) → Block → M State (Unit {0})
    sync_entries zero i p = pure tt
    sync_entries (suc n) i p = do sync (entry p i); sync_entries n (i + 1) p

    sync_double : DiskInode → M State (Unit {0})
    unfolding sync_entries data_blocks total_blocks
    sync_double d = if d.indirect2 == 0 then pure tt else (do
      p ← read d.indirect2
      sync_entries (total_blocks d.size - data_blocks d.size - 2) 0 p
      sync d.indirect2)

    sync_single : DiskInode → M State (Unit {0})
    sync_single d = if d.indirect1 == 0 then pure tt else sync d.indirect1

    pub sync_data : (indirect : Bool) → DiskInode → M State (Unit {0})
    unfolding sync_blocks sync_single sync_double data_blocks
    sync_data indirect d = do
      sync_blocks (data_blocks d.size) 0 d
      if indirect then (do sync_single d; sync_double d) else pure tt
