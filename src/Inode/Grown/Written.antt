-- ===== src/Inode/Grown/Written.antt =====
-- What `Inode::write_data` leaves of a file that it made longer, and what is read back from it.
use mathlib.Core.Path.{subst}
use sbfs.Prelude.{
  ℕ, ◌+◌, ◌-◌, ◌*◌, ◌%◌, ◌^◌, ◌≤◌, ◌<◌, ◌≡◌, refl, ◌∙◌, sym, ap, lt→ltb, inl, Option, none, some,
  arith,
}
use sbfs.Block.{Block, block_size}
use sbfs.Store.{BlockStore}
use sbfs.Position.{Position}
use sbfs.Layout.{Fs}
use sbfs.DiskInode.{DiskInode, direct_count, data_blocks}
use sbfs.DiskInode.Bytes.Stored.{read_inode-Leaves, write_inode-Leaves}
use sbfs.DiskInode.Increase.Direct.{HasSpare, Grown}
use sbfs.DiskInode.Resize
use sbfs.DiskInode.Resize.Grown.{resize-Grown}
use sbfs.DiskInode.Data.Write.{put}
use sbfs.Inode.{write_data}
use sbfs.Inode.Written.{IsSmall}
use sbfs.Inode.Grown.{longer, HasSpace, node, resized}
use sbfs.Inode.Grown.Steps.{write_data-runs, with_stale-old}
use sbfs.Inode.Grown.Stored.{bigger-Has, stored-IsSmall, id-ne-pos, before}

module _ (bs : BlockStore) (fs : Fs) (now : ℕ) (pos : Position) (n : ℕ) (ids : ℕ → ℕ) where
  open bs use {State, Good, contents}

  -- The file after the write, with its new blocks, and the bytes before it.
  pub record Longer (d : DiskInode) (bytes : ℕ → ℕ) (offset len : ℕ) (buf : Block)
      (r : Option ℕ × State) : Type 0 where
    pub ids' : ℕ → ℕ
    pub old : ℕ → ℕ
    pub after : State
    pub runs : r ≡ (some len, after)
    pub kept : (x : ℕ) → x < n * block_size → old x ≡ bytes x
    pub small :
        IsSmall bs fs now pos
          (data_blocks (offset + len))
          ids'
          (longer now (offset + len) ids' d)
          (put len offset 0 buf old)
          after

  -- A write that ends in a block behind the last one of a file with direct blocks, all of which
  -- the new size leaves enough, where the data bitmap has as many free slots as blocks are
  -- missing: it succeeds with its length, and the file is then one of the new size with direct
  -- blocks of its own. Its bytes are those of the buffer in the range of the write, and elsewhere
  -- in its old blocks what they were.
  pub write_data-Longer :
      (d : DiskInode) (bytes : ℕ → ℕ) (s : State) (offset len : ℕ) (buf : Block)
      → IsSmall bs fs now pos n ids d bytes s
      → 0 < len
      → n ≡ data_blocks d.size
      → n < data_blocks (offset + len)
      → data_blocks (offset + len) ≤ direct_count
      → HasSpace bs fs now pos n ids (data_blocks (offset + len) - n) (contents s)
      → Longer d bytes offset len buf (write_data bs fs now pos offset buf len s)
  unfolding data_blocks
  write_data-Longer d bytes s offset len buf small some_bytes whole more few space =
      let size = offset + len in
      let a = node bs fs now pos n ids d bytes s small size whole more few space in
      let r = read_inode-Leaves bs pos s small.inode_block small.good small.there in
      let e = small.same.size in
      let fits : size % 2 ^ 32 ≡ size = omega arith in
      let grown =
        resize-Grown bs fs.data_bitmap (contents s) now size a r.after r.good r.holds space.ready
          (subst (λ z. HasSpare fs.data_bitmap (contents s) (data_blocks size - z))
            (whole ∙ ap data_blocks (sym e)) space.spare)
          (omega (arith, e)) few in
      let blocks : data_blocks a.size ≡ n = ap data_blocks e ∙ sym whole in
      let bigger_node = resized bs fs now pos n ids d bytes s small size whole more few space in
      let run =
        Resize.resize bs fs.data_bitmap now none size (record { node = a; dev = r.after }) in
      let g : Grown bs fs.data_bitmap (contents s) (data_blocks size - n) n bigger_node run =
        subst (λ z. Grown bs fs.data_bitmap (contents s) (data_blocks size - z) z bigger_node run)
          blocks grown in
      let (w, wrote, hw) =
        bigger-Has bs fs now pos n ids d bytes s small size whole more few space run g offset len
          buf some_bytes refl in
      let here =
        hw.others pos.block_id
          (id-ne-pos bs fs now pos n ids d bytes s small size whole more few space run g)
        ∙ g.kept pos.block_id (inl space.inode_before)
        ∙ small.there in
      let p =
        write_inode-Leaves bs pos w small.inode_block hw.good here (longer now size g.direct a) in
      record {
        ids' = g.direct;
        old = before bs fs now pos n ids d bytes s small size whole more few space run g;
        after = p.after;
        runs =
            write_data-runs bs fs now pos offset len len buf a
              (record bigger_node { direct = g.direct }) (longer now size g.direct a) s r.after
              g.after w p.after r.runs (lt→ltb a.size (size % 2 ^ 32) (omega (arith, e)))
              (ap
                  (λ z.
                    Resize.resize bs fs.data_bitmap now none z (record { node = a; dev = r.after }))
                  fits
                ∙ g.runs)
              wrote p.runs;
        kept = with_stale-old bs fs now pos n ids bytes _;
        small =
            stored-IsSmall bs fs now pos n ids d bytes s small size whole more few space run g _ w _
              hw p;
      }
