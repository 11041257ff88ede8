-- ===== src/Inode/Written.antt =====
-- What `Inode::write_data` leaves of a file with direct blocks.

use sbfs.Prelude.{
  ℕ, ◌+◌, ◌*◌, ◌%◌, ◌^◌, ◌≤◌, ◌<◌, ◌≡◌, ◌≢◌, refl, ◌∙◌, sym, true, false, ==_refl, ==_of_ne, ltb,
  le→not_ltb, Option, some, arith, inl,
}
use sbfs.Block.{Block, block_size}
use sbfs.Store.{BlockStore}
use sbfs.Position.{Position}
use sbfs.Layout.{Fs}
use sbfs.DiskInode.{DiskInode, direct_count, update_meta}
use sbfs.DiskInode.Bytes.{get_inode, put_inode}
use sbfs.DiskInode.Bytes.Saved.{IsStorable, IsSame, get_inode-put_inode}
use sbfs.DiskInode.Bytes.Stored.{read_inode-Leaves, write_inode-Leaves}
use sbfs.DiskInode.Lookup.{Located}
use sbfs.DiskInode.Data.Write.{put, IsApart, Has}
use sbfs.DiskInode.Data.Written.{write_data-Has}
use sbfs.Inode.{write_data}

pub IsSame-refl : (d : DiskInode) → IsSame d d
IsSame-refl d = record {
  size = refl;
  access_time = refl;
  change_time = refl;
  modify_time = refl;
  uid = refl;
  gid = refl;
  link_cnt = refl;
  mode = refl;
  direct = λ i l. refl;
  indirect1 = refl;
  indirect2 = refl;
  kind = refl;
}

-- The same members, after the times of access and modification are set.
updated-IsStorable :
    (now : ℕ) (a d : DiskInode)
    → IsSame a d
    → IsStorable d
    → IsStorable (update_meta now true true false a)
unfolding update_meta
updated-IsStorable now a d s k = record {
  size = omega (arith, s.size, k.size);
  access_time = omega arith;
  change_time = omega (arith, s.change_time, k.change_time);
  modify_time = omega arith;
  uid = omega (arith, s.uid, k.uid);
  gid = omega (arith, s.gid, k.gid);
  link_cnt = omega (arith, s.link_cnt, k.link_cnt);
  mode = omega (arith, s.mode, k.mode);
  direct = λ i l. omega (arith, s.direct i l, k.direct i l);
  indirect1 = omega (arith, s.indirect1, k.indirect1);
  indirect2 = omega (arith, s.indirect2, k.indirect2);
}

updated-IsSame :
    (now : ℕ) (c a d : DiskInode)
    → IsSame c (update_meta now true true false a)
    → IsSame a d
    → IsSame c (update_meta now true true false d)
unfolding update_meta
updated-IsSame now c a d p s = record {
  size = p.size ∙ s.size;
  access_time = p.access_time;
  change_time = p.change_time ∙ s.change_time;
  modify_time = p.modify_time;
  uid = p.uid ∙ s.uid;
  gid = p.gid ∙ s.gid;
  link_cnt = p.link_cnt ∙ s.link_cnt;
  mode = p.mode ∙ s.mode;
  direct = λ i l. p.direct i l ∙ s.direct i l;
  indirect1 = p.indirect1 ∙ s.indirect1;
  indirect2 = p.indirect2 ∙ s.indirect2;
  kind = p.kind ∙ s.kind;
}

module _ (bs : BlockStore) (fs : Fs) (now : ℕ) (pos : Position) (n : ℕ) (ids : ℕ → ℕ) where
  open bs use {State, Good, contents}

  -- The inode at the position has `n` direct blocks, blocks of the device of their own, and the
  -- file's bytes are `bytes`.
  pub record IsSmall (d : DiskInode) (bytes : ℕ → ℕ) (s : State) : Type 0 where
    pub good : Good s
    pub inode_block : Block
    pub there : contents s pos.block_id ≡ some inode_block
    pub same : IsSame (get_inode inode_block pos.block_offset) d
    pub storable : IsStorable d
    pub size : d.size ≤ n * block_size
    pub few : n ≤ direct_count
    pub direct : (i : ℕ) → i < n → d.direct i ≡ ids i
    pub distinct : (i j : ℕ) → i < n → j < n → ids i ≡ ids j → i ≡ j
    pub own : (i : ℕ) → i < n → ids i ≢ pos.block_id
    pub block :
        (i : ℕ)
        → i < n
        → (b : Block) × (contents s (ids i) ≡ some b)
          × ((q : ℕ) → q < block_size → b q ≡ bytes (i * block_size + q))

  module _ (d : DiskInode) (bytes : ℕ → ℕ) (s : State) (small : IsSmall d bytes s) where
    abbrev pub got : DiskInode
    got = get_inode small.inode_block pos.block_offset

    got-IsApart : (f : ℕ → Option Block) → IsApart bs got n ids f
    unfolding Located
    got-IsApart f = record {
      found = λ g h i l. inl (
        omega (arith, small.few),
        small.same.direct i (omega (arith, small.few)) ∙ small.direct i l,
      );
      distinct = small.distinct;
    }

    pub write_data-IsSmall :
        (offset size : ℕ) (buf : Block)
        → 0 < size
        → offset + size ≤ d.size
        → (w : State) × (write_data bs fs now pos offset buf size s ≡ (some size, w))
          × IsSmall (update_meta now true true false d) (put size offset 0 buf bytes) w
    unfolding write_data update_meta
    write_data-IsSmall offset size buf h k =
        let r = read_inode-Leaves bs pos s small.inode_block small.good small.there in
        let e = small.same.size in
        let has : Has bs got n ids (contents s) bytes r.after = record {
          good = r.good;
          block = λ i l. let (b, there, q) = small.block i l in (b, r.holds (ids i) ∙ there, q);
          others = λ j out. r.holds j;
        } in
        let (v, wrote, hv) =
          write_data-Has bs got n ids (contents s) (got-IsApart (contents s)) now offset size buf
            bytes r.after h (omega (arith, e)) (omega (arith, e, small.size))
            (omega (arith, e, small.storable.size)) has in
        let b = small.inode_block in
        let here = hv.others pos.block_id small.own ∙ small.there in
        let d' = update_meta now true true false got in
        let w = write_inode-Leaves bs pos v b hv.good here d' in
        let whole : ltb got.size ((offset + size) % 2 ^ 32) ≡ false =
          le→not_ltb got.size ((offset + size) % 2 ^ 32) (omega (arith, e, small.storable.size)) in
        (
          w.after,
          rw (r.runs, whole, wrote, w.runs) refl,
          record {
            good = w.good;
            inode_block = put_inode b pos.block_offset d';
            there = w.holds pos.block_id ∙ rw (==_refl pos.block_id) refl;
            same =
                updated-IsSame now _ got d
                  (get_inode-put_inode b pos.block_offset d'
                    (updated-IsStorable now got d small.same small.storable))
                  small.same;
            storable = updated-IsStorable now d d (IsSame-refl d) small.storable;
            size = small.size;
            few = small.few;
            direct = small.direct;
            distinct = small.distinct;
            own = small.own;
            block = λ i l.
                let (c, at, q) = hv.block i l in
                (
                  c,
                  w.holds (ids i)
                      ∙ rw (==_of_ne pos.block_id (ids i) (λ x. small.own i l (sym x))) at,
                  q,
                );
          },
        )
