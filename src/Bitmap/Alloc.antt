-- ===== src/Bitmap/Alloc.antt =====
-- `Bitmap::alloc` on a bitmap with a free slot, over all of its blocks.
use mathlib.Core.Path.{subst}
use sbfs.Prelude.{
  refl, and_then, pure, M, ◌⊎◌, ◌∙◌, ap, sym, inl, inr, Bool-cases, ==_iff, ℕ, zero, suc, ◌+◌, ◌*◌,
  ◌/◌, ◌%◌, ◌^◌, ◌<◌, ◌≤◌, ◌≡◌, Bool, true, false, Option, none, some, ◌==◌, if◌then◌else◌, arith,
  bit_or,
}
use sbfs.Block.{Block, IsBytes}
use sbfs.Store.{Leaves-bind, Leaves, BlockStore}
use sbfs.Bitmap.{
  add32, alloc, alloc_from, take_slot, Bitmap, scan, word, set_word, slot_per_block,
  words_per_block, slot_id,
}
use sbfs.Bitmap.Slots.{taken-set_bit, taken, scan-taken, scan-taken-full}

-- Slots of a block that is not there count as taken.
abbrev pub taken? : Option Block → ℕ → Bool
taken? none n = true
taken? (some b) n = taken b n

module _ (m : Bitmap) (c : ℕ → Option Block) where
  -- The block with the bits of slot `n`, and whether the slot is in use.
  abbrev pub home : ℕ → ℕ
  home n = m.start_block_id + n / slot_per_block

  abbrev pub used : ℕ → Bool
  used n = taken? (c (home n)) (n % slot_per_block)

  -- The bitmap lies on blocks that can be read, below the limits of `uint32_t`.
  pub record Ready : Type 0 where
    pub block : ℕ → Block
    pub reads : (i : ℕ) → i < m.num_blocks → c (m.start_block_id + i) ≡ some (block i)
    pub bytes : (i : ℕ) → i < m.num_blocks → IsBytes (block i)
    pub fits : m.start_block_id + m.num_blocks ≤ 2 ^ 32
    pub ids_fit : m.num_blocks * slot_per_block + m.data_segment_offset ≤ 2 ^ 32

-- The slots of block `i`.
pub used-block :
    (m : Bitmap) (c : ℕ → Option Block) (i n : ℕ) {b : Block}
    → c (m.start_block_id + i) ≡ some b
    → n < slot_per_block
    → used m c (i * slot_per_block + n) ≡ taken b n
used-block m c i n h l =
    let e : (i * slot_per_block + n) / slot_per_block ≡ i = omega arith in
    let d : (i * slot_per_block + n) % slot_per_block ≡ n = omega arith in rw (e, d, h)

-- Changing one slot in its block changes that slot of the bitmap.
pub used-changed :
    (m : Bitmap) (c : ℕ → Option Block) (n k : ℕ) (b b' : Block) (v : Bool)
    → c (home m c n) ≡ some b
    → ((i : ℕ) → taken b' i ≡ (if n % slot_per_block == i then v else taken b i))
    → used m (λ j. if home m c n == j then some b' else c j) k ≡ (if n == k then v else used m c k)
used-changed m c n k b b' v here change = elim (Bool-cases (home m c n == home m c k)) [
  | inl e ↦
      let q : n / slot_per_block ≡ k / slot_per_block = ground arith in
      let same : (n % slot_per_block == k % slot_per_block) ≡ (n == k) = ground arith in
      let old : used m c k ≡ taken b (k % slot_per_block) =
        ap (λ i. taken? (c (m.start_block_id + i)) (k % slot_per_block)) (sym q)
        ∙ ap (λ o. taken? o (k % slot_per_block)) here in
      rw e (
        change (k % slot_per_block)
        ∙ ap (λ t. if t then v else taken b (k % slot_per_block)) same
        ∙ ap (λ t. if n == k then v else t) (sym old))
  | inr d ↦ let e : (n == k) ≡ false = ground arith in rw (d, e)
]

module _ (bs : BlockStore) (m : Bitmap) (c : ℕ → Option Block) (r : Ready m c) (n : ℕ)
    (below : n < m.num_blocks * slot_per_block) (is_free : used m c n ≡ false)
    (first : (k : ℕ) → k < n → used m c k ≡ true) where
  open bs use {State, Good, contents}

  abbrev target : ℕ
  target = n / slot_per_block

  -- The block of slot `n` with the slot taken.
  abbrev pub new_block : Block
  new_block =
      let b = r.block target in
      let k = n % slot_per_block in set_word b (k / 64) (bit_or (word b (k / 64)) (2 ^ (k % 64)))

  abbrev pub after_alloc : ℕ → Option Block
  after_alloc j = if home m c n == j then some new_block else c j

  in_target : target < m.num_blocks
  in_target = omega arith

  scan_before : (i : ℕ) → i < target → scan words_per_block 0 (r.block i) ≡ none
  scan_before i h = scan-taken-full (r.block i) (r.bytes i (omega arith)) λ k l.
      sym (used-block m c i k (r.reads i (omega arith)) l)
      ∙ first (i * slot_per_block + k) (omega arith)

  scan-target :
      scan words_per_block 0 (r.block target)
      ≡ some (n % slot_per_block / 64, n % slot_per_block % 64)
  scan-target =
      scan-taken (r.block target) (n % slot_per_block) (r.bytes target in_target) (omega arith)
        (ap (λ o. taken? o (n % slot_per_block)) (sym (r.reads target in_target)) ∙ is_free)
        (λ k l.
          sym (used-block m c target k (r.reads target in_target) (omega arith))
          ∙ first (target * slot_per_block + k) (omega arith))

  id_eq :
      slot_id m target (n % slot_per_block / 64) (n % slot_per_block % 64)
      ≡ n + m.data_segment_offset
  id_eq = omega (arith, r.ids_fit)

  address : (i : ℕ) → i < m.num_blocks → add32 m.start_block_id i ≡ m.start_block_id + i
  address i h = omega (arith, r.fits)

  take-Leaves :
      (next : M State ℕ) (w : State)
      → Good w
      → ((j : ℕ) → contents w j ≡ c j)
      → Leaves Good contents
          (take_slot bs m target (r.block target) next (scan words_per_block 0 (r.block target)) w)
          (n + m.data_segment_offset)
          after_alloc
  unfolding take_slot
  take-Leaves next w g same =
      let a = address target in_target in
      let l =
        bs.write-Leaves w (m.start_block_id + target) new_block g
          (same (m.start_block_id + target) ∙ r.reads target in_target) in
      rw (scan-target, a, id_eq)
        (record {
          after = l.after;
          runs = ap (λ x. and_then x (λ _. pure (n + m.data_segment_offset))) l.runs;
          good = l.good;
          holds = λ j. l.holds j ∙ ap (λ o. if home m c n == j then some new_block else o) (same j);
        })

  alloc_from-Leaves :
      (k i : ℕ) (s : State)
      → Good s
      → ((j : ℕ) → contents s j ≡ c j)
      → i + k ≡ m.num_blocks
      → i ≤ target
      → Leaves Good contents (alloc_from bs m k i s) (n + m.data_segment_offset) after_alloc
  unfolding alloc_from
  alloc_from-Leaves zero i s g same e le = absurd (omega (arith, in_target))
  alloc_from-Leaves (suc k) i s g same e le =
      Leaves-bind (bs.read (add32 m.start_block_id i)) _
        (bs.read-Leaves s (add32 m.start_block_id i) g
          (same _ ∙ ap c (address i (omega arith)) ∙ r.reads i (omega arith)))
        λ w gw sw.
          step (λ u gu su l. alloc_from-Leaves k (i + 1) u gu su (omega arith) l) w gw
            (λ j. sw j ∙ same j) (Bool-cases (i == target))
    where
      step :
          ((u : State)
            → Good u
            → ((j : ℕ) → contents u j ≡ c j)
            → i + 1 ≤ target
            → Leaves Good contents
                (alloc_from bs m k (i + 1) u)
                (n + m.data_segment_offset)
                after_alloc)
          → (w : State) → Good w
          → ((j : ℕ) → contents w j ≡ c j)
          → ((i == target) ≡ true) ⊎ ((i == target) ≡ false)
          → Leaves Good contents
              (take_slot bs m i
                (r.block i)
                (alloc_from bs m k (i + 1))
                (scan words_per_block 0 (r.block i))
                w)
              (n + m.data_segment_offset)
              after_alloc
      step rest w gw sw (inl p) =
          subst
            (λ i'.
              Leaves Good contents
                (take_slot bs m i' (r.block i') (alloc_from bs m k (i + 1))
                  (scan words_per_block 0 (r.block i')) w)
                (n + m.data_segment_offset) after_alloc)
            (sym ((==_iff i target).0 p)) (take-Leaves (alloc_from bs m k (i + 1)) w gw sw)
      step rest w gw sw (inr p) = rw (scan_before i (ground arith)) (rest w gw sw (ground arith))

  -- `alloc` in any state with the blocks `c`.
  pub alloc-Leaves :
      (s : State)
      → Good s
      → ((j : ℕ) → contents s j ≡ c j)
      → Leaves Good contents (alloc bs m s) (n + m.data_segment_offset) after_alloc
  unfolding alloc
  alloc-Leaves s g h = alloc_from-Leaves m.num_blocks 0 s g h (omega arith) (omega arith)

  -- The slot is taken, and all other slots of the bitmap are as they were.
  pub used-after_alloc :
      (k : ℕ)
      → k < m.num_blocks * slot_per_block
      → used m after_alloc k ≡ (if n == k then true else used m c k)
  used-after_alloc k h =
      used-changed m c n k (r.block target) new_block true (r.reads target in_target)
        (λ i. taken-set_bit (r.block target) (n % slot_per_block) i (r.bytes target in_target))

-- When slot `n` is the first free one of a bitmap that can be read, `alloc` returns its id, `n +
-- data_segment_offset`, sets its bit in its block and leaves the other slots of the bitmap and all
-- other blocks as they were.
pub alloc-first :
    (bs : BlockStore) (m : Bitmap) (s : bs.State) (n : ℕ)
    → bs.Good s
    → (r : Ready m (bs.contents s)) → (below : n < m.num_blocks * slot_per_block)
    → (is_free : used m (bs.contents s) n ≡ false)
    → (first : (k : ℕ) → k < n → used m (bs.contents s) k ≡ true)
    → Leaves bs.Good bs.contents
        (alloc bs m s)
        (n + m.data_segment_offset)
        (after_alloc bs m (bs.contents s) r n below is_free first)
      × ((k : ℕ)
          → k < m.num_blocks * slot_per_block
          → used m (after_alloc bs m (bs.contents s) r n below is_free first) k
            ≡ (if n == k then true else used m (bs.contents s) k))
alloc-first bs m s n g r below is_free first = (
  alloc-Leaves bs m (bs.contents s) r n below is_free first s g (λ j. refl),
  used-after_alloc bs m (bs.contents s) r n below is_free first,
)
