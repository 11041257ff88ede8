-- ===== src/Inode/Grown/Stored.antt =====
-- The steps of `Inode::write_data` on a file that `resize` has made longer: the write to its old and
-- new blocks, and the inode that is written back.

use sbfs.Prelude.{
  ℕ, ◌+◌, ◌-◌, ◌^◌, ◌≤◌, ◌<◌, ◌≡◌, ◌≢◌, refl, ◌∙◌, sym, ap, ltb, ltb→lt, not_ltb→le, ==_refl,
  ==_of_ne, ◌==◌, if◌then◌else◌, Bool-cases, inl, inr, Option, some, arith,
}
use sbfs.Block.{Block}
use sbfs.Store.{BlockStore, Leaves}
use sbfs.Position.{Position}
use sbfs.Layout.{Fs}
use sbfs.DiskInode.{Task, DiskInode, direct_count, data_blocks, update_meta}
use sbfs.DiskInode.Bytes.{put_inode}
use sbfs.DiskInode.Bytes.Saved.{get_inode-put_inode}
use sbfs.DiskInode.Increase.Direct.{Grown}
use sbfs.DiskInode.Data
use sbfs.DiskInode.Data.Write.{put, Has}
use sbfs.DiskInode.Data.Written.{write_data-Has}
use sbfs.Inode.Written.{IsSmall, IsSame-refl}
use sbfs.Inode.Grown.{
  longer, HasSpace, node, resized, stale_bytes, grown-Has, direct_distinct, old_direct,
  new_id-ne-pos,
}
use sbfs.Inode.Grown.Steps.{
  longer-IsStorable, longer-IsSame, longer_lem, own-IsApart, longer-fields,
}

module _ (bs : BlockStore) (fs : Fs) (now : ℕ) (pos : Position) (n : ℕ) (ids : ℕ → ℕ) where
  open bs use {State, Good, contents}

  module _ (d : DiskInode) (bytes : ℕ → ℕ) (s : State)
      (small : IsSmall bs fs now pos n ids d bytes s) (size : ℕ) (whole : n ≡ data_blocks d.size)
      (more : n < data_blocks size) (few : data_blocks size ≤ direct_count)
      (space : HasSpace bs fs now pos n ids (data_blocks size - n) (contents s))
      (r : Option (Unit {0}) × Task State)
      (grown : Grown bs fs.data_bitmap
        (contents s)
        (data_blocks size - n)
        n
        (resized bs fs now pos n ids d bytes s small size whole more few space)
        r) where
    direct-lt : (i : ℕ) → i < direct_count → grown.direct i < 2 ^ 32
    unfolding update_meta
    direct-lt i l = elim (Bool-cases (ltb i n)) [
      | inl p ↦
          let h = ltb→lt i n p in
          omega (arith, grown.old i (inl h), small.same.direct i l, small.storable.direct i l)
      | inr p ↦ elim (Bool-cases (ltb i (data_blocks size))) [
        | inl q ↦
            let h = not_ltb→le i n p in
            let u = ltb→lt i (data_blocks size) q in
            omega (
              arith,
              grown.new i h (omega arith),
              grown.in_range i h (omega arith),
              space.ready.ids_fit,
            )
        | inr q ↦
            let u = not_ltb→le i (data_blocks size) q in
            omega (
              arith,
              grown.old i (inr (omega arith)),
              small.same.direct i l,
              small.storable.direct i l,
            )
      ]
    ]

    pub id-ne-pos : (i : ℕ) → i < data_blocks size → grown.direct i ≢ pos.block_id
    id-ne-pos i l e = elim (Bool-cases (ltb i n)) [
      | inl p ↦
          let h = ltb→lt i n p in
          small.own i h (
            sym
              (old_direct bs fs now pos n ids d bytes s small size whole more few space r grown i h)
            ∙ e)
      | inr p ↦
          new_id-ne-pos bs fs now pos n ids d bytes s small size whole more few space r grown i
            (not_ltb→le i n p) l e
    ]

    abbrev pub bigger : DiskInode
    bigger = record (resized bs fs now pos n ids d bytes s small size whole more few space) {
      direct = grown.direct;
    }

    abbrev pub before : ℕ → ℕ
    before = stale_bytes bs fs now pos n ids d bytes s small size whole more few space r grown

    -- The write itself, to the inode in memory with its new blocks.
    pub bigger-Has :
        (offset len : ℕ) (buf : Block)
        → 0 < len
        → offset + len ≡ size
        → (w : State) × (Data.write_data bs now offset buf len
              (record { node = bigger; dev = grown.after })
            ≡ (
              some len,
              record {
                node =
                    longer now size grown.direct
                      (node bs fs now pos n ids d bytes s small size whole more few space);
                dev = w;
              },
            ))
          × Has bs bigger
              (data_blocks size)
              grown.direct
              (contents grown.after)
              (put len offset 0 buf before)
              w
    unfolding data_blocks
    bigger-Has offset len buf h e =
        let has = grown-Has bs fs now pos n ids d bytes s small size whole more few space r grown in
        let (w, wrote, hw) =
          write_data-Has bs bigger (data_blocks size) grown.direct (contents grown.after)
            (own-IsApart bs bigger (data_blocks size) grown.direct (contents grown.after) few
              (λ i l. refl)
              (direct_distinct bs fs now pos n ids d bytes s small size whole more few space r
                grown))
            now offset len buf before grown.after h (omega arith) (omega arith) (omega arith)
            (record { good = has.good; block = has.block; others = has.others }) in
        (
          w,
          wrote
              ∙ ap (λ z. (some len, record { node = z; dev = w }))
                  (sym (
                    longer_lem now size grown.direct
                      (node bs fs now pos n ids d bytes s small size whole more few space))),
          hw,
        )

    -- The inode is written back.
    pub stored-IsSmall :
        (bytes' : ℕ → ℕ) (w : State) (r' : Option (Unit {0}) × State)
        → Has bs bigger (data_blocks size) grown.direct (contents grown.after) bytes' w
        → (p : Leaves Good contents r' tt (λ j.
            if pos.block_id == j
            then some (
                put_inode small.inode_block pos.block_offset (
                  longer now size grown.direct
                    (node bs fs now pos n ids d bytes s small size whole more few space)))
            else contents w j))
        → IsSmall bs fs now pos
            (data_blocks size)
            grown.direct
            (longer now size grown.direct d)
            bytes'
            p.after
    unfolding data_blocks
    stored-IsSmall bytes' w r' hw p =
        let a = node bs fs now pos n ids d bytes s small size whole more few space in
        record {
          good = p.good;
          inode_block =
              put_inode small.inode_block pos.block_offset (longer now size grown.direct a);
          there = p.holds pos.block_id ∙ rw (==_refl pos.block_id) refl;
          same =
              longer-IsSame now size grown.direct _ a d
                (get_inode-put_inode small.inode_block pos.block_offset
                  (longer now size grown.direct a)
                  (longer-IsStorable now size grown.direct a d small.same small.storable
                    (omega arith) direct-lt))
                small.same;
          storable =
              longer-IsStorable now size grown.direct d d (IsSame-refl d) small.storable
                (omega arith) direct-lt;
          size = omega (arith, (longer-fields now size grown.direct d).0);
          few = few;
          direct = λ i l. ap (λ f. f i) (longer-fields now size grown.direct d).1;
          distinct =
              direct_distinct bs fs now pos n ids d bytes s small size whole more few space r grown;
          own = id-ne-pos;
          block = λ i l.
              let (c, at, q) = hw.block i l in
              (
                c,
                p.holds (grown.direct i)
                    ∙ rw (==_of_ne pos.block_id (grown.direct i) (λ z. id-ne-pos i l (sym z))) at,
                q,
              );
        }
