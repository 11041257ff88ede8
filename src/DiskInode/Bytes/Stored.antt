-- ===== src/DiskInode/Bytes/Stored.antt =====
-- `Inode::read_inode` and `write_inode` on a device that keeps its blocks.
use sbfs.Prelude.{◌≡◌, refl, ◌∙◌, some, ◌==◌, if◌then◌else◌}
use sbfs.Block.{Block}
use sbfs.Store.{BlockStore, Leaves, Leaves-bind, Leaves-to}
use sbfs.Position.{Position}
use sbfs.DiskInode.{DiskInode}
use sbfs.DiskInode.Bytes.{read_inode, write_inode, get_inode, put_inode}

module _ (bs : BlockStore) (p : Position) (s : bs.State) (b : Block) (g : bs.Good s)
    (c : bs.contents s p.block_id ≡ some b) where
  open bs use {Good, contents, read, write}

  pub read_inode-Leaves :
      Leaves Good contents (read_inode bs p s) (get_inode b p.block_offset) (contents s)
  unfolding read_inode
  read_inode-Leaves =
      Leaves-bind (read p.block_id) _ (bs.read-Leaves s p.block_id g c)
        (λ w gw h. record { after = w; runs = refl; good = gw; holds = h })

  pub write_inode-Leaves :
      (d : DiskInode)
      → Leaves Good contents
          (write_inode bs p d s)
          tt
          (λ j. if p.block_id == j then some (put_inode b p.block_offset d) else contents s j)
  unfolding write_inode
  write_inode-Leaves d =
      Leaves-bind (read p.block_id) _ (bs.read-Leaves s p.block_id g c) (λ w gw h.
        Leaves-to refl (λ j. rw (h j) refl)
          (bs.write-Leaves w p.block_id (put_inode b p.block_offset d) gw (h p.block_id ∙ c)))
