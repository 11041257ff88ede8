-- ===== src/DiskInode/Data/Read.antt =====
-- What `read_data` copies into the buffer, and what it returns.
use sbfs.Prelude.{
  ℕ, ◌+◌, ◌-◌, ◌%◌, ◌^◌, ◌<◌, ◌≡◌, refl, ap, some, true, false, and_then, pure, arith, min,
  le→not_ltb, ==_of_ne,
}
use sbfs.Block.{Block}
use sbfs.Store.{BlockStore, Leaves-to}
use sbfs.DiskInode.{Task, update_meta, data_blocks, with_dev}
use sbfs.DiskInode.Data.{clip, read_range, read_data}
use sbfs.DiskInode.Data.Copy.{file_copy}
use sbfs.DiskInode.Data.Range.{IsFile, IsInReach, same_range, read_range-Leaves}

clip-min :
    (size offset len : ℕ)
    → offset < size
    → offset + len < 2 ^ 32
    → clip size offset len ≡ min len (size - offset)
unfolding clip
clip-min size offset len h k = ground arith

module _ (bs : BlockStore) where
  open bs use {State, Good, contents}

  read_data-runs :
      (now offset len n : ℕ) (buf buf' : ℕ → ℕ) (t : Task State) (w : State)
      → offset < t.node.size
      → 0 < len
      → clip t.node.size offset len ≡ n
      → offset + n < 2 ^ 32
      → read_range bs t.node offset (offset + n) buf t.dev ≡ (some buf', w)
      → read_data bs now offset buf len t
        ≡ (some (n, buf'), record { node = update_meta now true false false t.node; dev = w })
  unfolding read_data update_meta
  read_data-runs now offset len n buf buf' t w h k c small runs =
      let word : (offset + n) % 2 ^ 32 ≡ offset + n = omega arith in
      rw (==_of_ne len 0 (omega arith), le→not_ltb t.node.size offset (omega arith), c, word)
        (ap
          (λ r.
            and_then (with_dev (update_meta now true false false t.node) r)
              (λ (b : ℕ → ℕ). pure (n, b)))
          runs)

  -- Where the inode's index finds all blocks of the file, a read of a positive length from an
  -- offset in the file returns the number of bytes up to the length or to the file's end,
  -- whichever comes first, and has copied exactly these bytes of the file to the buffer; offset
  -- and length add up to less than 2 ^ 32, and these bytes end below 2 ^ 31, or at 2 ^ 31 if they
  -- start in the block before it. Of the inode it changes the time of access, and it changes no
  -- block.
  pub read_data-bytes :
      (now offset len : ℕ) (buf : ℕ → ℕ) (t : Task State) (bytes : ℕ → Block)
      → Good t.dev
      → IsFile (contents t.dev) t.node (data_blocks t.node.size) bytes
      → offset < t.node.size
      → 0 < len
      → offset + len < 2 ^ 32
      → IsInReach offset (offset + min len (t.node.size - offset))
      → (w : State) × (read_data bs now offset buf len t ≡ (
        some (
          min len (t.node.size - offset),
          file_copy (min len (t.node.size - offset)) offset 0 bytes buf,
        ),
        record { node = update_meta now true false false t.node; dev = w },
      ))
        × Good w
        × ((j : ℕ) → contents w j ≡ contents t.dev j)
  unfolding data_blocks
  read_data-bytes now offset len buf t bytes g file h k fits small =
      let c = clip-min t.node.size offset len h fits in
      let n = min len (t.node.size - offset) in
      let l =
        Leaves-to (same_range {n = offset + n - offset} {n' = n} bytes buf (omega arith) refl)
          (λ j. refl)
          (read_range-Leaves bs t.node (data_blocks t.node.size) bytes offset (offset + n) buf t.dev
            g file (omega arith) (omega arith) small) in
      (
        l.after,
        read_data-runs now offset len n buf _ t l.after h k c (omega arith) l.runs,
        l.good,
        l.holds,
      )
