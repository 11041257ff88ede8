-- ===== src/Inode/ReadBack.antt =====
-- `Inode::read_data` on a file with direct blocks, and after `Inode::write_data`.

use sbfs.Prelude.{
  ℕ, ◌+◌, ◌-◌, ◌*◌, ◌/◌, ◌%◌, ◌≤◌, ◌<◌, ◌≡◌, refl, ◌∙◌, ap, true, false, leb, ◌&&◌, ltb, Option,
  none, some, min, arith, inl, ◌^◌,
}
use sbfs.Block.{Block, block_size}
use sbfs.Store.{BlockStore}
use sbfs.Position.{Position}
use sbfs.Layout.{Fs}
use sbfs.DiskInode.{DiskInode, data_blocks, update_meta}
use sbfs.DiskInode.Bytes.{get_inode}
use sbfs.DiskInode.Bytes.Stored.{read_inode-Leaves, write_inode-Leaves}
use sbfs.DiskInode.Lookup.{Located}
use sbfs.DiskInode.Data.Range.{IsFile, IsInReach}
use sbfs.DiskInode.Data.Copy.{byte, file_copy}
use sbfs.DiskInode.Data.Read.{read_data-bytes}
use sbfs.Inode.{read_data}
use sbfs.Inode.Written.{IsSmall}

pub or_zeros : Option Block → Block
or_zeros none = λ q. 0
or_zeros (some b) = b

in_reach :
    (offset len size : ℕ)
    → offset + len ≤ size
    → size < 2 ^ 31
    → IsInReach offset (offset + min len (size - offset))
in_reach offset len size h k = inl (omega arith)

module _ (bs : BlockStore) (fs : Fs) (now : ℕ) (pos : Position) (n : ℕ) (ids : ℕ → ℕ) where
  open bs use {State, Good, contents}

  module _ (d : DiskInode) (bytes : ℕ → ℕ) (s : State)
      (small : IsSmall bs fs now pos n ids d bytes s) where
    abbrev pub node : DiskInode
    node = get_inode small.inode_block pos.block_offset

    -- Block `i` of the file, as the device has it.
    abbrev pub file_block : (ℕ → Option Block) → ℕ → Block
    file_block f i = or_zeros (f (ids i))

    pub node-IsFile :
        (f : ℕ → Option Block)
        → ((j : ℕ) → f j ≡ contents s j)
        → IsFile f node (data_blocks node.size) (file_block f)
    unfolding IsFile Located data_blocks or_zeros
    node-IsFile f same i l =
        let below : i < n = omega (arith, small.same.size, small.size) in
        let (b, there, _) = small.block i below in
        let at : f (ids i) ≡ some b = same (ids i) ∙ there in
        (
          ids i,
          inl (
            omega (arith, small.few),
            small.same.direct i (omega (arith, small.few)) ∙ small.direct i below,
          ),
          rw at refl,
        )

    pub file_block-bytes :
        (f : ℕ → Option Block)
        → ((j : ℕ) → f j ≡ contents s j)
        → (x : ℕ) → x < n * block_size
        → byte (file_block f) x ≡ bytes x
    unfolding byte or_zeros
    file_block-bytes f same x l =
        let (b, there, q) = small.block (x / block_size) (omega arith) in
        let at : f (ids (x / block_size)) ≡ some b = same (ids (x / block_size)) ∙ there in
        let join : x / block_size * block_size + x % block_size ≡ x = omega arith in
        ap (λ o. or_zeros o (x % block_size)) at ∙ q (x % block_size) (omega arith) ∙ ap bytes join

    copied :
        (len o : ℕ) (f : ℕ → Option Block) (buf : Block) (q : ℕ)
        → q < len
        → file_copy len o 0 (file_block f) buf q ≡ byte (file_block f) (o + q)
    unfolding file_copy
    copied len o f buf q l =
        let at : o + (q - 0) ≡ o + q = omega arith in
        let test : (leb 0 q && ltb q (0 + len)) ≡ true = ground arith in
        rw test (ap (byte (file_block f)) at)

    pub read_data-IsSmall :
        (offset size : ℕ) (buf : Block)
        → 0 < size
        → offset + size ≤ d.size
        → (w : State) × (c : Block) × (read_data bs fs now pos offset buf size s
            ≡ (some (size, c), w))
          × ((q : ℕ) → q < size → c q ≡ bytes (offset + q))
    unfolding read_data
    read_data-IsSmall offset size buf h k =
        let r = read_inode-Leaves bs pos s small.inode_block small.good small.there in
        let e = small.same.size in
        let f = contents r.after in
        let (w, runs, gw, same) =
          read_data-bytes bs now offset size buf (record { node = node; dev = r.after })
            (file_block f) r.good (node-IsFile f r.holds) (omega (arith, e)) h
            (omega (arith, small.storable.size))
            (in_reach offset size node.size (omega (arith, e))
              (omega (arith, e, small.size, small.few))) in
        let len : min size (node.size - offset) ≡ size = omega (arith, e) in
        let l =
          write_inode-Leaves bs pos w small.inode_block gw
            (same pos.block_id ∙ r.holds pos.block_id ∙ small.there)
            (update_meta now true false false node) in
        (
          l.after,
          file_copy size offset 0 (file_block f) buf,
          rw (r.runs, runs, l.runs, len) refl,
          λ q b.
              copied size offset f buf q b
              ∙ file_block-bytes f r.holds (offset + q) (omega (arith, small.size)),
        )
