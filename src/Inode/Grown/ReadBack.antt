-- ===== src/Inode/Grown/ReadBack.antt =====
-- `Inode::read_data` after an `Inode::write_data` that made the file longer.
use sbfs.Prelude.{
  ℕ, ◌+◌, ◌-◌, ◌*◌, ◌≤◌, ◌<◌, ◌≡◌, refl, ◌∙◌, ap, Bool, true, false, ◌&&◌, leb, ltb, if◌then◌else◌,
  some, arith,
}
use sbfs.Block.{Block, block_size}
use sbfs.Store.{BlockStore}
use sbfs.Position.{Position}
use sbfs.Layout.{Fs}
use sbfs.DiskInode.{DiskInode, direct_count, data_blocks}
use sbfs.DiskInode.Data.Write.{put}
use sbfs.Inode.{write_data, read_data}
use sbfs.Inode.Written.{IsSmall}
use sbfs.Inode.ReadBack.{read_data-IsSmall}
use sbfs.Inode.Grown.{HasSpace, longer}
use sbfs.Inode.Grown.Steps.{longer-fields}
use sbfs.Inode.Grown.Written.{write_data-Longer}

put-inside :
    (len offset x : ℕ) (buf : Block) (old : ℕ → ℕ)
    → offset ≤ x
    → x < offset + len
    → put len offset 0 buf old x ≡ buf (x - offset)
unfolding put
put-inside len offset x buf old h k =
    chosen (leb offset x && ltb x (offset + len)) (ground arith)
    ∙ ap buf {x = 0 + (x - offset)} {y = x - offset} (omega arith)
  where
    chosen :
        (c : Bool)
        → c ≡ true
        → (if c then buf (0 + (x - offset)) else old x) ≡ buf (0 + (x - offset))
    chosen c e = rw e refl

put-outside :
    (len offset x : ℕ) (buf : Block) (old : ℕ → ℕ) → x < offset → put len offset 0 buf old x ≡ old x
unfolding put
put-outside len offset x buf old h = chosen (leb offset x) (ground arith)
  where
    chosen :
        (c : Bool)
        → c ≡ false
        → (if c && ltb x (offset + len) then buf (0 + (x - offset)) else old x) ≡ old x
    chosen c e = rw e refl

-- The file does not depend on the time.
IsSmall-later :
    (bs : BlockStore) (fs : Fs) (now later : ℕ) (pos : Position) (n : ℕ) (ids : ℕ → ℕ)
    (d : DiskInode) (bytes : ℕ → ℕ) (s : bs.State)
    → IsSmall bs fs now pos n ids d bytes s
    → IsSmall bs fs later pos n ids d bytes s
IsSmall-later bs fs now later pos n ids d bytes s k = record {
  good = k.good;
  inode_block = k.inode_block;
  there = k.there;
  same = k.same;
  storable = k.storable;
  size = k.size;
  few = k.few;
  direct = k.direct;
  distinct = k.distinct;
  own = k.own;
  block = k.block;
}

module _ (bs : BlockStore) (fs : Fs) (now later : ℕ) (pos : Position) (n : ℕ) (ids : ℕ → ℕ) where
  open bs use {State, Good, contents}

  -- Where the blocks of a file are `n` direct ones, blocks of the device of their own, a write
  -- that needs more blocks, at most 23, for which the data bitmap has free slots, returns its
  -- length. Every read of a positive size within the new size then returns its size, the bytes of
  -- the buffer in the range of the write, and in the old blocks before that range the old bytes.
  pub read-write_longer :
      (d : DiskInode) (bytes : ℕ → ℕ) (s : State) (offset len : ℕ) (buf : Block)
      → IsSmall bs fs now pos n ids d bytes s
      → 0 < len
      → n ≡ data_blocks d.size
      → n < data_blocks (offset + len)
      → data_blocks (offset + len) ≤ direct_count
      → HasSpace bs fs now pos n ids (data_blocks (offset + len) - n) (contents s)
      → (w : State) × (write_data bs fs now pos offset buf len s ≡ (some len, w))
        × ((o size : ℕ) (into : Block)
            → 0 < size
            → o + size ≤ offset + len
            → (u : State) × (c : Block) × (read_data bs fs later pos o into size w
                ≡ (some (size, c), u))
              × ((q : ℕ) → q < size → offset ≤ o + q → c q ≡ buf (o + q - offset))
              × ((q : ℕ)
                  → q < size
                  → o + q < offset
                  → o + q < n * block_size
                  → c q ≡ bytes (o + q)))
  read-write_longer d bytes s offset len buf small h whole more few space =
      let l =
        write_data-Longer bs fs now pos n ids d bytes s offset len buf small h whole more few
          space in
      (
        l.after,
        l.runs,
        λ o size into k u.
            let d' = longer now (offset + len) l.ids' d in
            let (v, c, runs, same) =
              read_data-IsSmall bs fs later pos (data_blocks (offset + len)) l.ids' d'
                (put len offset 0 buf l.old) l.after
                (IsSmall-later bs fs now later pos _ l.ids' d' _ l.after l.small) o size into k
                (omega (arith, (longer-fields now (offset + len) l.ids' d).0)) in
            (
              v,
              c,
              runs,
              λ q x y. same q x ∙ put-inside len offset (o + q) buf l.old y (omega arith),
              λ q x y z. same q x ∙ put-outside len offset (o + q) buf l.old y ∙ l.kept (o + q) z,
            ),
      )
