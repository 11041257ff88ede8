-- ===== src/Vfs/Files/ReadBack.antt =====
-- `sb_write` and then `sb_read` by one handle.
use sbfs.Prelude.{
  ℕ, ◌+◌, ◌-◌, ◌%◌, ◌^◌, ◌≤◌, ◌<◌, ◌≡◌, refl, ◌∙◌, ap, some, arith, ltb, le→not_ltb, leb, ◌&&◌,
  true, false,
}
use sbfs.Block.{Block}
use sbfs.Store.{BlockStore}
use sbfs.Position.{Position, u32_max}
use sbfs.Layout.{Fs}
use sbfs.DiskInode.{DiskInode, update_meta}
use sbfs.DiskInode.Data.Write.{put}
use sbfs.Inode.Written.{IsSmall, write_data-IsSmall}
use sbfs.Inode.ReadBack.{read_data-IsSmall}
use sbfs.Fd.{get_fd}
use sbfs.Vfs.{Vfs, done}
use sbfs.Vfs.Files.{read, write}
use sbfs.Vfs.Files.Handles.{handle-some}

put-inside :
    (len o : ℕ) (buf : Block) (old : ℕ → ℕ) (q : ℕ) → q < len → put len o 0 buf old (o + q) ≡ buf q
unfolding put
put-inside len o buf old q h =
    let at : 0 + (o + q - o) ≡ q = omega arith in
    let test : (leb o (o + q) && ltb (o + q) (o + len)) ≡ true = ground arith in rw test (ap buf at)

module _ (bs : BlockStore) (fs : Fs) (now : ℕ) (p : Position) (n : ℕ) (ids : ℕ → ℕ) (d : DiskInode)
    (bytes : ℕ → ℕ) where
  -- With a handle of a file of at most 23 direct blocks, which a good device has and which are
  -- blocks of the device of their own, and whose inode's members have the widths of their types,
  -- a write of a positive size that ends within the file returns the size, and a read of that
  -- size from the same offset by the handle then returns the size and the bytes that were
  -- written.
  pub read-write :
      (buf into : Block) (size offset fh : ℕ) (v : Vfs bs.State)
      → get_fd fh v.fds ≡ some p
      → IsSmall bs fs now p n ids d bytes v.dev
      → 0 < size
      → offset + size ≤ d.size
      → (after : Vfs bs.State) × (last : Vfs bs.State) × (got : Block) × (write bs fs now buf size
            offset fh v
          ≡ (done size, after))
        × (read bs fs now into size offset fh after ≡ (done (size, got), last))
        × ((q : ℕ) → q < size → got q ≡ buf q)
  unfolding write read update_meta
  read-write buf into size offset fh v opened small h k =
      let (w, wrote, written) =
        write_data-IsSmall bs fs now p n ids d bytes v.dev small offset size buf h k in
      let new = put size offset 0 buf bytes in
      let d' = update_meta now true true false d in
      let (u, got, runs, same) =
        read_data-IsSmall bs fs now p n ids d' new w written offset size into h k in
      let low : offset % 2 ^ 32 ≡ offset = omega (arith, small.storable.size) in
      let fits = le→not_ltb u32_max size (omega (arith, small.storable.size)) in
      let after : Vfs bs.State = record v { dev = w } in
      (
        after,
        record v { dev = u },
        got,
        rw (fits, handle-some fh p v opened, low, wrote) refl,
        rw (fits, handle-some fh p after opened, low, runs) refl,
        λ q l. same q l ∙ put-inside size offset buf bytes q l,
      )
