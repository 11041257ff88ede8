-- ===== src/Bitmap/Spare.antt =====
-- `Bitmap::alloc` on a bitmap that has free slots, once and again.
use mathlib.Core.Path.{subst}
use sbfs.Prelude.{
  ℕ, zero, suc, ◌+◌, ◌*◌, ◌/◌, ◌%◌, ◌≤◌, ◌<◌, ◌≡◌, ◌≢◌, refl, ◌∙◌, sym, ap, Bool, true, false, ◌==◌,
  ==_iff, ==_of_ne, fun_ext, ◌⊎◌, if◌then◌else◌, Bool-cases, inl, inr, Option, some, update, arith,
}
use sbfs.Block.{Block, IsBytes, put_le}
use sbfs.Store.{BlockStore}
use sbfs.Bitmap.{Bitmap, alloc, slot_per_block}
use sbfs.Bitmap.Alloc.{Ready, used, home, new_block, after_alloc, alloc-Leaves, used-after_alloc}

put_le-IsBytes : (n : ℕ) (b : Block) (o v : ℕ) → IsBytes b → IsBytes (put_le n b o v)
unfolding put_le
put_le-IsBytes zero b o v h = h
put_le-IsBytes (suc n) b o v h =
    put_le-IsBytes n (update b o (v % 256)) (o + 1) (v / 256) (λ q. ground (arith, h q))

-- Where a slot is free, there is a first free one.
IsFirstFree : (ℕ → Bool) → (n f : ℕ) → Type 0
IsFirstFree p n f = (f ≤ n) × (p f ≡ false) × ((k : ℕ) → k < f → p k ≡ true)

lowest_free :
    (p : ℕ → Bool) (n d i : ℕ)
    → p n ≡ false
    → i + d ≡ n
    → ((k : ℕ) → k < i → p k ≡ true)
    → (f : ℕ) × IsFirstFree p n f
unfolding IsFirstFree
lowest_free p n zero i h e low = (i, (omega arith, ap p {x = i} {y = n} (omega arith) ∙ h, low))
lowest_free p n (suc d) i h e low = elim (Bool-cases (p i)) [
  | inr free ↦ (i, (omega arith, free, low))
  | inl taken ↦ lowest_free p n d (i + 1) h (omega arith) (λ k l. elim (Bool-cases (i == k)) [
    | inl q ↦ ap p (sym ((==_iff i k).0 q)) ∙ taken
    | inr q ↦ low k (ground arith)
  ])
]

-- What `alloc` promises where slot `n` is free: it returns the id of a free slot, not behind `n`,
-- which is then taken, and changes no other slot and no block outside the bitmap.
pub record Gives (bs : BlockStore) (m : Bitmap) (c : ℕ → Option Block) (n : ℕ)
    (r : Option ℕ × bs.State) : Type 0 where
  pub slot : ℕ
  pub after : bs.State
  pub runs : r ≡ (some (slot + m.data_segment_offset), after)
  pub good : bs.Good after
  pub first : slot ≤ n
  pub was_free : used m c slot ≡ false
  pub earlier : (k : ℕ) → k < slot → used m c k ≡ true
  pub ready : Ready m (bs.contents after)
  pub slots :
      (k : ℕ)
      → k < m.num_blocks * slot_per_block
      → used m (bs.contents after) k ≡ (if slot == k then true else used m c k)
  pub kept :
      (j : ℕ)
      → (j < m.start_block_id) ⊎ (m.start_block_id + m.num_blocks ≤ j)
      → bs.contents after j ≡ c j

module _ (bs : BlockStore) (m : Bitmap) (c : ℕ → Option Block) (r : Ready m c) (f : ℕ)
    (below : f < m.num_blocks * slot_per_block) (is_free : used m c f ≡ false)
    (first : (k : ℕ) → k < f → used m c k ≡ true) where
  abbrev changed : ℕ → Option Block
  changed = after_alloc bs m c r f below is_free first

  abbrev changed_block : Block
  changed_block = new_block bs m c r f below is_free first

  -- The bitmap can be read after the change.
  changed-Ready : Ready m changed
  changed-Ready = record {
    block = λ i. if f / slot_per_block == i then changed_block else r.block i;
    reads = λ i l. elim (Bool-cases (f / slot_per_block == i)) [
      | inl q ↦ let e : (home m c f == m.start_block_id + i) ≡ true = ground arith in rw (e, q) refl
      | inr q ↦
          let e : (home m c f == m.start_block_id + i) ≡ false = ground arith in
          rw (e, q) (r.reads i l)
    ];
    bytes = λ i l. elim (Bool-cases (f / slot_per_block == i)) [
      | inl q ↦ rw q (
          put_le-IsBytes 8 (r.block (f / slot_per_block)) _ _
            (r.bytes (f / slot_per_block) (omega arith)))
      | inr q ↦ rw q (r.bytes i l)
    ];
    fits = r.fits;
    ids_fit = r.ids_fit;
  }

outside :
    (m : Bitmap) (f j : ℕ)
    → f < m.num_blocks * slot_per_block
    → (j < m.start_block_id) ⊎ (m.start_block_id + m.num_blocks ≤ j)
    → m.start_block_id + f / slot_per_block ≢ j
outside m f j h (inl l) q = absurd (omega arith)
outside m f j h (inr l) q = absurd (omega arith)

pub alloc-Gives :
    (bs : BlockStore) (m : Bitmap) (c : ℕ → Option Block) (s : bs.State) (n : ℕ)
    → bs.Good s
    → ((j : ℕ) → bs.contents s j ≡ c j)
    → Ready m c
    → n < m.num_blocks * slot_per_block
    → used m c n ≡ false
    → Gives bs m c n (alloc bs m s)
unfolding IsFirstFree
alloc-Gives bs m c s n g same r below free =
    let (f, (le, is_free, earlier)) =
      lowest_free (used m c) n n 0 free (omega arith) (λ k l. absurd (omega arith)) in
    let in_range : f < m.num_blocks * slot_per_block = omega arith in
    let l = alloc-Leaves bs m c r f in_range is_free earlier s g same in
    let e = fun_ext l.holds in
    record {
      slot = f;
      after = l.after;
      runs = l.runs;
      good = l.good;
      first = le;
      was_free = is_free;
      earlier = earlier;
      ready = subst (Ready m) (sym e) (changed-Ready bs m c r f in_range is_free earlier);
      slots =
          λ k h. ap (λ x. used m x k) e ∙ used-after_alloc bs m c r f in_range is_free earlier k h;
      kept = λ j out.
          l.holds j ∙ rw (==_of_ne (home m c f) j (λ q. outside m f j in_range out q)) refl;
    }
