-- ===== src/Inode/Create/Made.antt =====
-- What `create` of a file leaves of the directory that it is created in.
use sbfs.Prelude.{
  ℕ, ◌+◌, ◌*◌, ◌%◌, ◌^◌, ◌≤◌, ◌<◌, ◌≡◌, ◌≢◌, refl, ◌∙◌, sym, ap, true, false, Option, some, arith,
  ◌==◌, ==_of_ne, ==_refl, if◌then◌else◌, ◌⊎◌, inl, inr, Bool-cases, ==_iff,
}
use sbfs.Block.{Block, block_size}
use sbfs.Store.{BlockStore}
use sbfs.Bitmap.{slot_per_block}
use sbfs.Bitmap.Alloc.{Ready, used, home, alloc-Leaves}
use sbfs.Position.{Position}
use sbfs.Path.{Str}
use sbfs.Layout.{Fs, disk_inode_pos, alloc_inode}
use sbfs.DiskInode.{DiskInode, file, directory, data_blocks, update_meta}
use mathlib.Core.Path.{subst}
use mathlib.Core.Option.{some-injective}
use sbfs.DiskInode.Bytes.Apart.{get_inode-put_inode_ne, IsSame-trans}
use sbfs.DiskInode.Bytes.{inode_bytes, get_inode, put_inode}
use sbfs.DiskInode.Bytes.Saved.{IsStorable, IsSame, get_inode-put_inode}
use sbfs.DiskInode.Bytes.Stored.{read_inode-Leaves, write_inode-Leaves}
use sbfs.DiskInode.Data.Write.{put, Has}
use sbfs.Inode.{create}
use sbfs.Inode.Entries.{entry_bytes, new_entry}
use sbfs.Inode.Written.{IsSmall, IsSame-refl}
use sbfs.Inode.Create.Appended.{grown, create-runs, append_entry-Has}

grown-IsStorable :
    (now : ℕ) (a d : DiskInode) → IsSame a d → IsStorable d → IsStorable (grown now a)
unfolding grown update_meta
grown-IsStorable now a d s k = record {
  size = omega arith;
  access_time = omega arith;
  change_time = omega arith;
  modify_time = omega arith;
  uid = omega (arith, s.uid, k.uid);
  gid = omega (arith, s.gid, k.gid);
  link_cnt = omega (arith, s.link_cnt, k.link_cnt);
  mode = omega (arith, s.mode, k.mode);
  direct = λ i l. omega (arith, s.direct i l, k.direct i l);
  indirect1 = omega (arith, s.indirect1, k.indirect1);
  indirect2 = omega (arith, s.indirect2, k.indirect2);
}

pub grown-size : (now : ℕ) (d : DiskInode) → (grown now d).size ≡ (d.size + entry_bytes) % 2 ^ 32
unfolding grown update_meta
grown-size now d = refl

pub grown-kind : (now : ℕ) (d : DiskInode) → (grown now d).kind ≡ d.kind
unfolding grown update_meta
grown-kind now d = refl

pub grown-direct : (now : ℕ) (d : DiskInode) → (grown now d).direct ≡ d.direct
unfolding grown update_meta
grown-direct now d = refl

grown-IsSame :
    (now : ℕ) (c a d : DiskInode) → IsSame c (grown now a) → IsSame a d → IsSame c (grown now d)
unfolding grown update_meta
grown-IsSame now c a d p s = record {
  size = p.size ∙ ap (λ x. (x + entry_bytes) % 2 ^ 32) s.size;
  access_time = p.access_time;
  change_time = p.change_time;
  modify_time = p.modify_time;
  uid = p.uid ∙ s.uid;
  gid = p.gid ∙ s.gid;
  link_cnt = p.link_cnt ∙ s.link_cnt;
  mode = p.mode ∙ s.mode;
  direct = λ i l. p.direct i l ∙ s.direct i l;
  indirect1 = p.indirect1 ∙ s.indirect1;
  indirect2 = p.indirect2 ∙ s.indirect2;
  kind = p.kind ∙ s.kind;
}

not_shared : {a b : ℕ} {P Q : Type 0} → (a ≢ b) ⊎ P ⊎ Q → a ≡ b → P ⊎ Q
not_shared (inl ne) e = absurd (ne e)
not_shared (inr h) e = h

module _ (bs : BlockStore) (fs : Fs) (now : ℕ) (pos : Position) (n : ℕ) (ids : ℕ → ℕ) where
  open bs use {State, Good, contents}

  abbrev pub new_id : (slot : ℕ) → ℕ
  new_id slot = slot + fs.inode_bitmap.data_segment_offset

  abbrev pub new_pos : (slot : ℕ) → Position
  new_pos slot = disk_inode_pos fs (new_id slot)

  -- Slot `slot` is the first free one of the inode bitmap, and has a block of the device for its
  -- inode. The bitmap's block, the inode's block and the blocks of the directory are apart; but
  -- the new inode may share a block with the directory's, where the two do not overlap.
  pub record HasRoom (slot : ℕ) (f : ℕ → Option Block) : Type 0 where
    pub ready : Ready fs.inode_bitmap f
    pub below : slot < fs.inode_bitmap.num_blocks * slot_per_block
    pub is_free : used fs.inode_bitmap f slot ≡ false
    pub first : (k : ℕ) → k < slot → used fs.inode_bitmap f k ≡ true
    pub block : Block
    pub there : f (new_pos slot).block_id ≡ some block
    pub bitmap_inode : home fs.inode_bitmap f slot ≢ (new_pos slot).block_id
    pub bitmap_parent : home fs.inode_bitmap f slot ≢ pos.block_id
    pub bitmap_file : (i : ℕ) → i < n → home fs.inode_bitmap f slot ≢ ids i
    pub apart :
        (pos.block_id ≢ (new_pos slot).block_id)
        ⊎ ((new_pos slot).block_offset + inode_bytes ≤ pos.block_offset)
        ⊎ (pos.block_offset + inode_bytes ≤ (new_pos slot).block_offset)
    pub inode_file : (i : ℕ) → i < n → ids i ≢ (new_pos slot).block_id

  -- The new inode is as it was written, when the directory's has been written too.
  child_block :
      (slot : ℕ) (child d' : DiskInode) (f w u : ℕ → Option Block) (cb b : Block)
      → HasRoom slot f
      → IsStorable child
      → w (new_pos slot).block_id ≡ some (put_inode cb (new_pos slot).block_offset child)
      → w pos.block_id ≡ some b
      → ((j : ℕ)
          → u j ≡ (if pos.block_id == j then some (put_inode b pos.block_offset d') else w j))
      → (x : Block) × (u (new_pos slot).block_id ≡ some x)
        × IsSame (get_inode x (new_pos slot).block_offset) child
  child_block slot child d' f w u cb b room fits made at h =
      elim (Bool-cases (pos.block_id == (new_pos slot).block_id)) [
        | inr p ↦ (
          put_inode cb (new_pos slot).block_offset child,
          h (new_pos slot).block_id ∙ rw p made,
          get_inode-put_inode cb (new_pos slot).block_offset child fits,
        )
        | inl p ↦
            let e = (==_iff pos.block_id (new_pos slot).block_id).0 p in
            let same : b ≡ put_inode cb (new_pos slot).block_offset child =
              some-injective b (put_inode cb (new_pos slot).block_offset child)
                (sym at ∙ ap w e ∙ made) in
            (
              put_inode b pos.block_offset d',
              h (new_pos slot).block_id ∙ rw p refl,
              IsSame-trans
                  (get_inode-put_inode_ne b pos.block_offset (new_pos slot).block_offset d'
                    (not_shared room.apart e))
                  (subst (λ x. IsSame (get_inode x (new_pos slot).block_offset) child) (sym same)
                    (get_inode-put_inode cb (new_pos slot).block_offset child fits)),
            )
      ]

  module _ (d : DiskInode) (bytes : ℕ → ℕ) (s : State)
      (small : IsSmall bs fs now pos n ids d bytes s) where
    abbrev node : DiskInode
    node = get_inode small.inode_block pos.block_offset

    -- The block of the directory's inode, which may be the one of the new inode.
    parent_block :
        (slot : ℕ) (child : DiskInode) (v w : State) (cb : Block) {old : Block}
        → contents v pos.block_id ≡ some old
        → ((j : ℕ)
            → contents w j ≡ (
                if (new_pos slot).block_id == j
                then some (put_inode cb (new_pos slot).block_offset child)
                else contents v j))
        → (b : Block) × (contents w pos.block_id ≡ some b)
    parent_block slot child v w cb {old} e h =
        elim (Bool-cases ((new_pos slot).block_id == pos.block_id)) [
          | inl p ↦ (put_inode cb (new_pos slot).block_offset child, h pos.block_id ∙ rw p refl)
          | inr p ↦ (old, h pos.block_id ∙ rw p e)
        ]

    pub create-IsSmall :
        (slot : ℕ) (name : Str) (child : DiskInode) (o : Option Position)
        → HasRoom slot (contents s)
        → d.kind ≡ directory
        → child.kind ≡ file
        → IsStorable child
        → d.size + entry_bytes ≤ n * block_size
        → data_blocks d.size ≡ data_blocks (d.size + entry_bytes)
        → (w : State) × (create bs fs now pos name child (record { inode = o; dev = s })
            ≡ (some tt, record { inode = some (new_pos slot); dev = w }))
          × IsSmall bs fs now pos n ids
              (grown now d)
              (put entry_bytes d.size 0 (new_entry name (new_id slot)) bytes)
              w
          × ((x : Block) × (contents w (new_pos slot).block_id ≡ some x)
              × IsSame (get_inode x (new_pos slot).block_offset) child)
    unfolding alloc_inode
    create-IsSmall slot name child o room kind k fits more blocks =
        let r = read_inode-Leaves bs pos s small.inode_block small.good small.there in
        let e = small.same.size in
        let l =
          alloc-Leaves bs fs.inode_bitmap (contents s) room.ready slot room.below room.is_free
            room.first r.after r.good r.holds in
        let f = contents l.after in
        let kept : (j : ℕ) → home fs.inode_bitmap (contents s) slot ≢ j → f j ≡ contents s j =
          λ j ne. l.holds j ∙ rw (==_of_ne (home fs.inode_bitmap (contents s) slot) j ne) refl in
        let has : Has bs node n ids f bytes l.after = record {
          good = l.good;
          block = λ i u.
              let (b, there, q) = small.block i u in
              (b, kept (ids i) (room.bitmap_file i u) ∙ there, q);
          others = λ j out. refl;
        } in
        let (v, wrote, hv) =
          append_entry-Has bs fs now node n ids f name (new_id slot) bytes l.after small.few
            (λ i u. small.same.direct i (omega (arith, small.few)) ∙ small.direct i u)
            small.distinct (omega (arith, e))
            (ap data_blocks e ∙ blocks ∙ ap (λ x. data_blocks (x + entry_bytes)) (sym e)) has in
        let here =
          hv.others (new_pos slot).block_id room.inode_file
          ∙ kept (new_pos slot).block_id room.bitmap_inode
          ∙ room.there in
        let c = write_inode-Leaves bs (new_pos slot) v room.block hv.good here child in
        let (b, at) =
          parent_block slot child v c.after room.block
            (hv.others pos.block_id small.own ∙ kept pos.block_id room.bitmap_parent ∙ small.there)
            c.holds in
        let p = write_inode-Leaves bs pos c.after b c.good at (grown now node) in
        (
          p.after,
          create-runs bs fs now pos child name node (grown now node) (new_id slot) o s r.after
              l.after v c.after p.after r.runs (small.same.kind ∙ kind) l.runs wrote k c.runs
              p.runs,
          record {
            good = p.good;
            inode_block = put_inode b pos.block_offset (grown now node);
            there = p.holds pos.block_id ∙ rw (==_refl pos.block_id) refl;
            same =
                grown-IsSame now _ node d
                  (get_inode-put_inode b pos.block_offset (grown now node)
                    (grown-IsStorable now node d small.same small.storable))
                  small.same;
            storable = grown-IsStorable now d d (IsSame-refl d) small.storable;
            size = omega (arith, grown-size now d, small.storable.size);
            few = small.few;
            direct = λ i u. ap (λ g. g i) (grown-direct now d) ∙ small.direct i u;
            distinct = small.distinct;
            own = small.own;
            block = λ i u.
                let (x, held, q) = hv.block i u in
                (
                  x,
                  p.holds (ids i)
                      ∙ rw (==_of_ne pos.block_id (ids i) (λ z. small.own i u (sym z))) (
                          c.holds (ids i)
                          ∙ rw
                              (==_of_ne (new_pos slot).block_id (ids i)
                                (λ z. room.inode_file i u (sym z)))
                              held),
                  λ y h.
                      q y h
                      ∙ ap
                          (λ z.
                            put entry_bytes z 0 (new_entry name (new_id slot)) bytes
                              (i * block_size + y))
                          e,
                );
          },
          child_block slot child (grown now node) (contents s) (contents c.after) (contents p.after)
              room.block b room fits
              (c.holds (new_pos slot).block_id ∙ rw (==_refl (new_pos slot).block_id) refl) at
              p.holds,
        )
