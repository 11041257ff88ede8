-- ===== src/DiskInode/Increase.antt =====
-- `DiskInode::increase`: a file takes blocks, step by step in the three ranges of its index.
pub mod Direct
pub mod Few
use sbfs.Prelude.{
  ℕ, zero, suc, ◌+◌, ◌-◌, ◌/◌, ◌%◌, Option, none, some, ◌==◌, ltb, leb, if◌then◌else◌, min, max,
  update, M, pure, ◌>>=◌, ◌>>◌,
}
use sbfs.Block.{Block}
use sbfs.Store.{BlockStore}
use sbfs.Bitmap.{Bitmap, alloc}
use sbfs.Position.{u32_max}
use sbfs.DiskInode.{
  DiskInode, Task, on_node, on_dev, entry, set_entry, direct_count, indirect_count, single_count,
}

-- The index blocks that `old_data` data blocks have in the doubly indirect range.
abbrev pub index_blocks : ℕ → ℕ
index_blocks old_data =
    if ltb single_count old_data then (old_data - single_count - 1) / indirect_count + 1 else 0

module _ (bs : BlockStore) (m : Bitmap) where
  open bs use {State, read, write}

  -- Step one, over the `n` direct blocks from `i` on.
  pub grow_direct : ℕ → ℕ → M (Task State) (Unit {0})
  grow_direct zero i = pure tt
  grow_direct (suc n) i = do
    blk ← on_dev (alloc bs m)
    on_node (λ d. record d { direct = update d.direct i blk })
    grow_direct n (i + 1)

  -- An index block is allocated where the field is 0. The field is set before the failure is seen.
  set_index : (ℕ → DiskInode → DiskInode) → Option ℕ × Task State → Option (Unit {0}) × Task State
  set_index set (none, t) = (none, record t { node = set u32_max t.node })
  set_index set (some blk, t) = (some tt, record t { node = set blk t.node })

  need_index : ℕ → (ℕ → DiskInode → DiskInode) → M (Task State) (Unit {0})
  unfolding set_index
  need_index now set t = if now == 0 then set_index set (on_dev (alloc bs m) t) else (some tt, t)

  -- The entries of the index block `p` from `i` on get `n` new blocks.
  grow_entries : ℕ → ℕ → Block → M (Task State) Block
  grow_entries zero i p = pure p
  grow_entries (suc n) i p = do
    blk ← on_dev (alloc bs m)
    grow_entries n (i + 1) (set_entry p i blk)

  -- Step two.
  pub grow_single : (old_data new_data : ℕ) → M (Task State) (Unit {0})
  unfolding need_index grow_entries
  grow_single old_data new_data t =
      if ltb direct_count new_data
      then (do
        (λ t. need_index t.node.indirect1 (λ b d. record d { indirect1 = b }) t)
        p ← (λ t. on_dev (read t.node.indirect1) t)
        p' ←
            grow_entries (min new_data single_count - max old_data direct_count)
              (max old_data direct_count - direct_count) p
        (λ t. on_dev (write t.node.indirect1 p') t))
          t
      else (some tt, t)

  -- A new index block at entry `blk` of the block `p`, if `blk` has none: `have` is the source's
  -- `blk_limit + 1`.
  need_block : (have blk : ℕ) → Block → M (Task State) (ℕ × Block)
  need_block have blk p =
      if leb have blk
      then (do
        new ← on_dev (alloc bs m)
        (λ t. on_dev (write t.node.indirect2 (set_entry p blk new)) t)
        pure (have + 1, set_entry p blk new))
      else pure (have, p)

  -- Step three, for the `n` data blocks from number `j` of the doubly indirect range on.
  grow_double_from : (n j have : ℕ) → Block → M (Task State) (Unit {0})
  unfolding need_block
  grow_double_from zero j have p = pure tt
  grow_double_from (suc n) j have p = do
    (have', p') ← need_block have (j / indirect_count) p
    q ← on_dev (read (entry p' (j / indirect_count)))
    new ← on_dev (alloc bs m)
    on_dev (write (entry p' (j / indirect_count)) (set_entry q (j % indirect_count) new))
    grow_double_from n (j + 1) have' p'

  pub grow_double : (old_data new_data : ℕ) → M (Task State) (Unit {0})
  unfolding need_index grow_double_from
  grow_double old_data new_data t =
      if ltb single_count new_data
      then (do
        (λ t. need_index t.node.indirect2 (λ b d. record d { indirect2 = b }) t)
        p ← (λ t. on_dev (read t.node.indirect2) t)
        grow_double_from (new_data - max old_data single_count)
            (max old_data single_count - single_count) (index_blocks old_data) p)
          t
      else (some tt, t)

  -- `old_blocks` and `new_blocks` of the source serve an assertion only.
  pub increase : (old_data new_data : ℕ) → M (Task State) (Unit {0})
  unfolding grow_direct grow_single grow_double
  increase old_data new_data = do
    grow_direct (min new_data direct_count - old_data) old_data
    grow_single old_data new_data
    grow_double old_data new_data
