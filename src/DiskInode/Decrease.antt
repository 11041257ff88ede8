-- ===== src/DiskInode/Decrease.antt =====
-- `DiskInode::decrease`: a file gives blocks back. The ids of the blocks go to a list first; the
-- bitmap is changed after the inode has been written.
use sbfs.Prelude.{
  ℕ, zero, suc, ◌+◌, ◌-◌, ◌/◌, ◌%◌, Option, none, some, ◌==◌, ltb, leb, if◌then◌else◌, ◌&&◌, not,
  List, [], ◌∷◌, ◌++◌, min, max, update, M, pure, ◌>>=◌, ◌>>◌,
}
use sbfs.Block.{Block}
use sbfs.Store.{BlockStore}
use sbfs.Bitmap.{Bitmap, free}
use sbfs.Position.{u32_max, Position}
use sbfs.DiskInode.{
  DiskInode, Task, on_node, on_dev, entry, set_entry, direct_count, indirect_count, single_count,
}
use sbfs.DiskInode.Bytes.{write_inode}

-- Step one, over the `n` direct blocks from `i` on.
pub cut_direct : ℕ → ℕ → DiskInode → List ℕ × DiskInode
cut_direct zero i d = ([], d)
cut_direct (suc n) i d =
    let (ids, d') = cut_direct n (i + 1) (record d { direct = update d.direct i u32_max }) in
    (d.direct i ∷ ids, d')

-- The loop over the `n` entries of an index block from `j` on: each goes to the list and becomes -1.
pub cut_entries : ℕ → ℕ → Block → List ℕ × Block
cut_entries zero j p = ([], p)
cut_entries (suc n) j p =
    let (ids, p') = cut_entries n (j + 1) (set_entry p j u32_max) in (entry p j ∷ ids, p')

module _ (bs : BlockStore) where
  open bs use {State, read, write}

  pub step_direct : (old_data new_data : ℕ) → M (Task State) (List ℕ)
  unfolding cut_direct
  step_direct old_data new_data t =
      let (ids, d) = cut_direct (min old_data direct_count - new_data) new_data t.node in
      (some ids, record t { node = d })

  -- Step two, from the list and the block that its loop leaves.
  end_single : (new_data : ℕ) → List ℕ × Block → M (Task State) (List ℕ)
  end_single new_data (ids, p) t =
      if leb new_data direct_count
      then (
        some (ids ++ (t.node.indirect1 ∷ [])),
        record t { node = record t.node { indirect1 = 0 } },
      )
      else (do on_dev (write t.node.indirect1 p); pure ids) t

  pub step_single : (old_data new_data : ℕ) → M (Task State) (List ℕ)
  unfolding end_single cut_entries
  step_single old_data new_data t =
      if t.node.indirect1 == 0
      then (some [], t)
      else (do
        p ← on_dev (read t.node.indirect1)
        end_single new_data (
            cut_entries (min old_data single_count - max new_data direct_count)
              (max new_data direct_count - direct_count) p))
          t

  -- Step three where the whole range goes: the `n` index blocks from entry `i` of `p` on, of which
  -- the last, `last`, has `rest` entries.
  cut_all : (n i last rest : ℕ) → Block → M State (List ℕ)
  unfolding cut_entries
  cut_all zero i last rest p = pure []
  cut_all (suc n) i last rest p = do
    q ← read (entry p i)
    ids ← cut_all n (i + 1) last rest p
    pure ((cut_entries (if i == last then rest else indirect_count) 0 q).0 ++ (entry p i ∷ ids))

  -- Step three where the range keeps its entries up to `(first, kept)` and had those up to
  -- `(last, rest)`. The index block is written to the device's block `i`, not to `entry p i`.
  cut_block : (i first kept last rest : ℕ) → Block → Block → M State (List ℕ)
  unfolding cut_entries
  cut_block i first kept last rest p q =
      if not (i == first) && not (i == last)
      then pure ((cut_entries indirect_count 0 q).0 ++ (entry p i ∷ []))
      else if i == first && not (i == last)
      then (let (ids, q') = cut_entries (indirect_count - (kept + 1)) (kept + 1) q in
          do write i q'; pure ids)
      else if i == last && not (i == first)
      then pure ((cut_entries (rest + 1) 0 q).0 ++ (entry p i ∷ []))
      else (let (ids, q') = cut_entries (rest - kept) (kept + 1) q in do write i q'; pure ids)

  cut_tail : (n i first kept last rest : ℕ) → Block → M State (List ℕ)
  unfolding cut_block
  cut_tail zero i first kept last rest p = pure []
  cut_tail (suc n) i first kept last rest p = do
    q ← read (entry p i)
    ids ← cut_block i first kept last rest p q
    more ← cut_tail n (i + 1) first kept last rest p
    pure (ids ++ more)

  drop_double : (rj : ℕ) → M (Task State) (List ℕ)
  unfolding cut_all
  drop_double rj t =
      (do
        p ← on_dev (read t.node.indirect2)
        ids ←
            on_dev (
              cut_all (rj / indirect_count + 1) 0 (rj / indirect_count) (rj % indirect_count + 1) p)
        on_node (λ d. record d { indirect2 = 0 })
        pure (ids ++ (t.node.indirect2 ∷ [])))
        t

  trim_double : (ri rj : ℕ) → M (Task State) (List ℕ)
  unfolding cut_tail
  trim_double ri rj t =
      (do
        p ← on_dev (read t.node.indirect2)
        ids ← on_dev (
            cut_tail (rj / indirect_count + 1 - ri / indirect_count) (ri / indirect_count)
              (ri / indirect_count) (ri % indirect_count) (rj / indirect_count)
              (rj % indirect_count) p)
        on_dev (write t.node.indirect2 p)
        pure ids)
        t

  -- `ri` and `rj` are `new_data - single_count - 1` and `old_data - single_count - 1`.
  pub step_double : (old_data new_data : ℕ) → M (Task State) (List ℕ)
  unfolding drop_double trim_double
  step_double old_data new_data t =
      if t.node.indirect2 == 0
      then (some [], t)
      else if leb new_data single_count && ltb single_count old_data
      then drop_double (old_data - single_count - 1) t
      else if ltb single_count new_data && ltb single_count old_data
      then trim_double (new_data - single_count - 1) (old_data - single_count - 1) t
      else (some [], t)

  -- The result of the write is not tested.
  unfoldable pub save : Option Position → M (Task State) (Unit {0})
  save none t = (some tt, t)
  save (some pos) t = (some tt, record t { dev = (write_inode bs pos t.node t.dev).1 })

  pub free_all : Bitmap → List ℕ → M State (Unit {0})
  free_all m [] = pure tt
  free_all m (id ∷ ids) = do free bs m id; free_all m ids

  -- `old_blocks` and `new_blocks` of the source serve an assertion only.
  pub decrease : Bitmap → Option Position → (old_data new_data : ℕ) → M (Task State) (Unit {0})
  unfolding step_direct step_single step_double save free_all
  decrease m pos old_data new_data = do
    ids ← step_direct old_data new_data
    ids' ← step_single old_data new_data
    ids'' ← step_double old_data new_data
    save pos
    on_dev (free_all m (ids ++ ids' ++ ids''))
