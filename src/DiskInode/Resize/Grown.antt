-- ===== src/DiskInode/Resize/Grown.antt =====
-- `resize` that makes a file longer, where the new size needs direct blocks only.
use sbfs.Prelude.{
  ℕ, ◌-◌, ◌≤◌, ◌<◌, ◌≡◌, true, false, none, ltb, ◌==◌, ==_of_ne, le→not_ltb, Option, arith,
}
use sbfs.Block.{Block}
use sbfs.Store.{BlockStore}
use sbfs.Bitmap.{Bitmap}
use sbfs.Bitmap.Alloc.{Ready}
use sbfs.DiskInode.{DiskInode, direct_count, data_blocks, total_blocks, update_meta}
use sbfs.DiskInode.Sizes.{total_blocks-lt}
use sbfs.DiskInode.Increase.Few.{increase-Grown}
use sbfs.DiskInode.Increase.Direct.{HasSpare, Grown}
use sbfs.DiskInode.Resize.{change_blocks, resize}

module _ (bs : BlockStore) (m : Bitmap) where
  open bs use {State, Good, contents}

  pub resize-Grown :
      (f : ℕ → Option Block) (now new_size : ℕ) (d : DiskInode) (s : State)
      → Good s
      → ((j : ℕ) → contents s j ≡ f j)
      → Ready m f
      → HasSpare m f (data_blocks new_size - data_blocks d.size)
      → data_blocks d.size < data_blocks new_size
      → data_blocks new_size ≤ direct_count
      → Grown bs m f
          (data_blocks new_size - data_blocks d.size)
          (data_blocks d.size)
          (record (update_meta now true true true d) { size = new_size })
          (resize bs m now none new_size (record { node = d; dev = s }))
  unfolding resize change_blocks
  resize-Grown f now new_size d s g same r sp h k =
      let more = total_blocks-lt d.size new_size h in
      let differ : (total_blocks d.size == total_blocks new_size) ≡ false =
        ==_of_ne (total_blocks d.size) (total_blocks new_size) (λ e. omega arith) in
      let longer : ltb (total_blocks new_size) (total_blocks d.size) ≡ false =
        le→not_ltb (total_blocks new_size) (total_blocks d.size) (omega arith) in
      rw (differ, longer)
        (increase-Grown bs m f (data_blocks d.size) (data_blocks new_size)
          (record (update_meta now true true true d) { size = new_size }) s g same r sp h k)
