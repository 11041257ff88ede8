-- ===== src/DiskInode/Resize.antt =====
-- `DiskInode::resize` and `DiskInode::clear`.
pub mod Same
pub mod Grown
use sbfs.Prelude.{
  ℕ, zero, suc, ◌+◌, ◌-◌, ◌/◌, true, Option, ◌==◌, ltb, if◌then◌else◌, not, ◌&&◌, min, update, M,
  pure, ◌>>=◌, ◌>>◌,
}
use sbfs.Block.{Block}
use sbfs.Store.{BlockStore}
use sbfs.Bitmap.{Bitmap, free}
use sbfs.Position.{u32_max, Position}
use sbfs.DiskInode.{
  DiskInode, Task, on_node, on_dev, entry, direct_count, indirect_count, single_count, data_blocks,
  total_blocks, update_meta,
}
use sbfs.DiskInode.Increase.{increase}
use sbfs.DiskInode.Decrease.{decrease, save}

module _ (bs : BlockStore) (m : Bitmap) where
  open bs use {State, read, write}

  -- The blocks change only where the total of blocks does.
  change_blocks : Option Position → (old_size new_size : ℕ) → M (Task State) (Unit {0})
  unfolding data_blocks total_blocks
  change_blocks pos old_size new_size =
      if total_blocks old_size == total_blocks new_size
      then save bs pos
      else if ltb (total_blocks new_size) (total_blocks old_size)
      then decrease bs m pos (data_blocks old_size) (data_blocks new_size)
      else increase bs m (data_blocks old_size) (data_blocks new_size)

  pub resize : (now : ℕ) → Option Position → (new_size : ℕ) → M (Task State) (Unit {0})
  unfolding change_blocks
  resize now pos new_size t =
      (do
        on_node (λ d. record (update_meta now true true true d) { size = new_size })
        change_blocks pos t.node.size new_size)
        t

  clear_direct : ℕ → ℕ → M (Task State) (Unit {0})
  clear_direct zero i = pure tt
  clear_direct (suc n) i = do
    (λ t. on_dev (free bs m (t.node.direct i)) t)
    on_node (λ d. record d { direct = update d.direct i u32_max })
    clear_direct n (i + 1)

  free_entries : ℕ → ℕ → Block → M State (Unit {0})
  free_entries zero j p = pure tt
  free_entries (suc n) j p = do free bs m (entry p j); free_entries n (j + 1) p

  -- The test is against the size of an index block, not against `direct_count`.
  clear_single : DiskInode → (blocks : ℕ) → M State (Unit {0})
  unfolding free_entries
  clear_single d blocks =
      if not (d.indirect1 == 0) && ltb indirect_count blocks
      then (do
        p ← read d.indirect1
        free_entries (min blocks single_count - direct_count) 0 p
        free bs m d.indirect1)
      else pure tt

  -- The loop of `n` rounds, where `i` grows by the size of an index block and is also the entry
  -- of `p` that is read.
  clear_blocks : (n i rest : ℕ) → Block → M State (Unit {0})
  unfolding free_entries
  clear_blocks zero i rest p = pure tt
  clear_blocks (suc n) i rest p = do
    q ← read (entry p i)
    free_entries (min indirect_count (rest - i)) 0 q
    free bs m (entry p i)
    clear_blocks n (i + indirect_count) rest p

  clear_double : DiskInode → (blocks : ℕ) → M State (Unit {0})
  unfolding clear_blocks
  clear_double d blocks =
      if not (d.indirect2 == 0) && ltb single_count blocks
      then (do
        p ← read d.indirect2
        clear_blocks ((blocks - single_count + indirect_count - 1) / indirect_count) 0
            (blocks - single_count) p
        free bs m d.indirect2)
      else pure tt

  clear : M (Task State) (Unit {0})
  unfolding clear_direct clear_single clear_double data_blocks
  clear t =
      (do
        clear_direct (min (data_blocks t.node.size) direct_count) 0
        on_dev (clear_single t.node (data_blocks t.node.size))
        on_dev (clear_double t.node (data_blocks t.node.size)))
        t
