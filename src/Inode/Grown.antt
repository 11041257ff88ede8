-- ===== src/Inode/Grown.antt =====
-- `Inode::write_data` past the end of a file: the file takes blocks first.
pub mod Steps
pub mod Stored
pub mod Written
pub mod ReadBack
use sbfs.Prelude.{
  ℕ, ◌+◌, ◌-◌, ◌*◌, ◌/◌, ◌%◌, ◌≤◌, ◌<◌, ◌≡◌, ◌≢◌, refl, ◌∙◌, sym, ap, true, false, ltb, ltb→lt,
  not_ltb→le, lt→ltb, le→not_ltb, if◌then◌else◌, Bool-cases, inl, inr, Option, some, arith,
}
use sbfs.Block.{Block, block_size}
use sbfs.Store.{BlockStore}
use sbfs.Bitmap.{slot_per_block}
use sbfs.Bitmap.Alloc.{Ready, used}
use sbfs.Position.{Position}
use sbfs.Layout.{Fs}
use sbfs.DiskInode.{Task, DiskInode, direct_count, data_blocks, update_meta}
use sbfs.DiskInode.Bytes.{get_inode}
use sbfs.DiskInode.Increase.Direct.{HasSpare, Grown}
use sbfs.DiskInode.Data.Write.{Has}
use sbfs.Inode.Written.{IsSmall}

-- The inode of a file that got longer, with its new blocks.
unfoldable pub longer : (now size : ℕ) → (direct : ℕ → ℕ) → DiskInode → DiskInode
unfolding update_meta
longer now size direct d =
    update_meta now true true false
      (record (update_meta now true true true d) { size = size; direct = direct })

module _ (bs : BlockStore) (fs : Fs) (now : ℕ) (pos : Position) (n : ℕ) (ids : ℕ → ℕ) where
  open bs use {State, Good, contents}

  -- The data bitmap has `g` free slots; its slots have blocks of the device, behind the bitmap,
  -- and those of the file are in use. The inode stands before the bitmap.
  pub record HasSpace (g : ℕ) (f : ℕ → Option Block) : Type 0 where
    pub ready : Ready fs.data_bitmap f
    pub spare : HasSpare fs.data_bitmap f g
    pub stale : ℕ → Block
    pub there :
        (k : ℕ)
        → k < fs.data_bitmap.num_blocks * slot_per_block
        → f (k + fs.data_bitmap.data_segment_offset) ≡ some (stale k)
    pub area :
        fs.data_bitmap.start_block_id + fs.data_bitmap.num_blocks
        ≤ fs.data_bitmap.data_segment_offset
    pub inode_before : pos.block_id < fs.data_bitmap.start_block_id
    pub file_area : (i : ℕ) → i < n → fs.data_bitmap.data_segment_offset ≤ ids i
    pub file_used :
        (i k : ℕ)
        → i < n
        → k < fs.data_bitmap.num_blocks * slot_per_block
        → used fs.data_bitmap f k ≡ false
        → ids i ≢ k + fs.data_bitmap.data_segment_offset

  -- The bytes of the file and of the blocks that it got.
  unfoldable pub with_stale : (ℕ → ℕ) → (ℕ → Block) → ℕ → ℕ
  with_stale bytes blocks x =
      if ltb x (n * block_size) then bytes x else blocks (x / block_size) (x % block_size)

  module _ (d : DiskInode) (bytes : ℕ → ℕ) (s : State)
      (small : IsSmall bs fs now pos n ids d bytes s) (size : ℕ) (whole : n ≡ data_blocks d.size)
      (more : n < data_blocks size) (few : data_blocks size ≤ direct_count)
      (space : HasSpace (data_blocks size - n) (contents s)) where
    abbrev pub node : DiskInode
    node = get_inode small.inode_block pos.block_offset

    abbrev pub n' : ℕ
    n' = data_blocks size

    abbrev pub resized : DiskInode
    resized = record (update_meta now true true true node) { size = size }

    module _ (r : Option (Unit {0}) × Task State)
        (grown : Grown bs fs.data_bitmap (contents s) (n' - n) n resized r) where
      pub new_id-ne-pos : (i : ℕ) → n ≤ i → i < n' → grown.direct i ≢ pos.block_id
      new_id-ne-pos i l u e =
          absurd (omega (arith, grown.new i l (omega arith), space.area, space.inode_before))

      pub old_direct : (i : ℕ) → i < n → grown.direct i ≡ ids i
      unfolding update_meta
      old_direct i l =
          grown.old i (inl l) ∙ (small.same.direct i (omega (arith, small.few)) ∙ small.direct i l)

      old-ne-new : (i j : ℕ) → i < n → n ≤ j → j < n' → grown.direct i ≢ grown.direct j
      old-ne-new i j h l u e =
          space.file_used i (grown.slot j) h (grown.in_range j l (omega arith))
            (grown.was_free j l (omega arith))
            (sym (old_direct i h) ∙ e ∙ grown.new j l (omega arith))

      new-ne : (i j : ℕ) → n ≤ i → i < j → j < n' → grown.direct i ≢ grown.direct j
      new-ne i j l h u e = absurd (
          omega (
            arith,
            grown.new i l (omega arith),
            grown.new j (omega arith) (omega arith),
            grown.rising i j l h (omega arith),
          ))

      less-ne : (i j : ℕ) → i < j → j < n' → grown.direct i ≢ grown.direct j
      less-ne i j h k e = elim (Bool-cases (ltb i n)) [
        | inr p ↦ new-ne i j (not_ltb→le i n p) h k e
        | inl p ↦ elim (Bool-cases (ltb j n)) [
          | inr q ↦ old-ne-new i j (ltb→lt i n p) (not_ltb→le j n q) k e
          | inl q ↦
              let same =
                small.distinct i j (ltb→lt i n p) (ltb→lt j n q)
                  (sym (old_direct i (ltb→lt i n p)) ∙ e ∙ old_direct j (ltb→lt j n q)) in
              absurd (omega arith)
        ]
      ]

      pub direct_distinct : (i j : ℕ) → i < n' → j < n' → grown.direct i ≡ grown.direct j → i ≡ j
      direct_distinct i j h k e = elim (Bool-cases (ltb i j)) [
        | inl p ↦ absurd (less-ne i j (ltb→lt i j p) k e)
        | inr p ↦ elim (Bool-cases (ltb j i)) [
          | inl q ↦ absurd (less-ne j i (ltb→lt j i q) h (sym e))
          | inr q ↦ omega (arith, not_ltb→le i j p, not_ltb→le j i q)
        ]
      ]

      abbrev pub stale_bytes : ℕ → ℕ
      stale_bytes = with_stale bytes (λ i. space.stale (grown.slot i))

      old_block :
          (i : ℕ)
          → i < n
          → (b : Block) × (contents grown.after (grown.direct i) ≡ some b)
            × ((q : ℕ) → q < block_size → b q ≡ stale_bytes (i * block_size + q))
      unfolding with_stale
      old_block i l =
          let (b, there, q) = small.block i l in
          (
            b,
            ap (contents grown.after) (old_direct i l)
                ∙ grown.kept (ids i) (inr (omega (arith, space.area, space.file_area i l)))
                ∙ there,
            λ x h. rw (lt→ltb (i * block_size + x) (n * block_size) (omega arith)) (q x h),
          )

      new_block :
          (i : ℕ)
          → n ≤ i
          → i < n'
          → (b : Block) × (contents grown.after (grown.direct i) ≡ some b)
            × ((q : ℕ) → q < block_size → b q ≡ stale_bytes (i * block_size + q))
      unfolding with_stale
      new_block i l u =
          let k = grown.slot i in
          (
            space.stale k,
            ap (contents grown.after) (grown.new i l (omega arith))
                ∙ grown.kept (k + fs.data_bitmap.data_segment_offset)
                    (inr (omega (arith, space.area)))
                ∙ space.there k (grown.in_range i l (omega arith)),
            λ x h.
                rw (le→not_ltb (i * block_size + x) (n * block_size) (omega arith)) (behind i x h),
          )
        where
          behind :
              (i x : ℕ)
              → x < block_size
              → space.stale (grown.slot i) x
                ≡ space.stale
                    (grown.slot ((i * block_size + x) / block_size))
                    ((i * block_size + x) % block_size)
          behind i x h =
              let block : i ≡ (i * block_size + x) / block_size = omega arith in
              let place : x ≡ (i * block_size + x) % block_size = omega arith in
              λ z. space.stale (grown.slot (block z)) (place z)

      pub grown-Has : Has bs node n' grown.direct (contents grown.after) stale_bytes grown.after
      grown-Has = record {
        good = grown.good;
        block = λ i l. elim (Bool-cases (ltb i n)) [
          | inl p ↦ old_block i (ltb→lt i n p)
          | inr p ↦ new_block i (not_ltb→le i n p) l
        ];
        others = λ j out. refl;
      }
