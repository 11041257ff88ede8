-- ===== src/DiskInode/Increase/Direct.antt =====
-- Step one of `DiskInode::increase`: the direct blocks that it takes.
use sbfs.Prelude.{
  ℕ, zero, suc, ◌+◌, ◌*◌, ◌≤◌, ◌<◌, ◌≡◌, refl, ◌∙◌, sym, ap, Bool, true, false, ◌==◌, Bool-cases,
  ltb, ltb→lt, ◌⊎◌, inl, inr, Option, some, if◌then◌else◌, update, and_then, arith,
}
use sbfs.Block.{Block}
use sbfs.Store.{BlockStore}
use sbfs.Bitmap.{Bitmap, alloc, slot_per_block}
use sbfs.Bitmap.Alloc.{Ready, used}
use sbfs.Bitmap.Spare.{Gives, alloc-Gives}
use sbfs.DiskInode.{DiskInode, Task, with_dev}
use sbfs.DiskInode.Increase.{grow_direct}

-- `g` free slots of a bitmap, from the lowest on.
pub record HasSpare (m : Bitmap) (f : ℕ → Option Block) (g : ℕ) : Type 0 where
  pub spare : ℕ → ℕ
  pub in_range : (j : ℕ) → j < g → spare j < m.num_blocks * slot_per_block
  pub is_free : (j : ℕ) → j < g → used m f (spare j) ≡ false
  pub rising : (j k : ℕ) → j < k → k < g → spare j < spare k

clash : {c : Bool} → c ≡ false → c ≡ true → ⊥
clash e h = ground arith

update_at : (f : ℕ → ℕ) (i j v : ℕ) → (j == i) ≡ true → update f i v j ≡ v
update_at f i j v h = ground arith

update_off : (f : ℕ → ℕ) (i n j v : ℕ) → (j < i) ⊎ (i + suc n ≤ j) → update f i v j ≡ f j
update_off f i n j v h = ground arith

past : (i n j : ℕ) → (j < i) ⊎ (i + suc n ≤ j) → (j < i + 1) ⊎ (i + 1 + n ≤ j)
past i n j (inl h) = inl (omega arith)
past i n j (inr h) = inr (omega arith)

module _ (bs : BlockStore) (m : Bitmap) where
  open bs use {State, Good, contents}

  -- The inode `d` has got `g` blocks from number `i` on, slots of the bitmap that were free in the
  -- blocks `f` and are all different; the blocks outside the bitmap are as they were.
  pub record Grown (f : ℕ → Option Block) (g i : ℕ) (d : DiskInode)
      (r : Option (Unit {0}) × Task State) : Type 0 where
    pub slot : ℕ → ℕ
    pub direct : ℕ → ℕ
    pub after : State
    pub runs : r ≡ (some tt, record { node = record d { direct = direct }; dev = after })
    pub good : Good after
    pub new : (j : ℕ) → i ≤ j → j < i + g → direct j ≡ slot j + m.data_segment_offset
    pub old : (j : ℕ) → (j < i) ⊎ (i + g ≤ j) → direct j ≡ d.direct j
    pub in_range : (j : ℕ) → i ≤ j → j < i + g → slot j < m.num_blocks * slot_per_block
    pub was_free : (j : ℕ) → i ≤ j → j < i + g → used m f (slot j) ≡ false
    pub rising : (j k : ℕ) → i ≤ j → j < k → k < i + g → slot j < slot k
    pub kept :
        (j : ℕ)
        → (j < m.start_block_id) ⊎ (m.start_block_id + m.num_blocks ≤ j)
        → contents after j ≡ f j

  -- A slot that is free after a call lies behind the one that the call took.
  free_after :
      (f : ℕ → Option Block) (n : ℕ) (s : State) (a : Gives bs m f n (alloc bs m s)) (k : ℕ)
      → k < m.num_blocks * slot_per_block
      → used m (contents a.after) k ≡ false
      → (a.slot < k) × (used m f k ≡ false)
  free_after f n s a k l free = elim (Bool-cases (a.slot == k)) [
    | inl p ↦ absurd (clash free (a.slots k l ∙ rw p refl))
    | inr p ↦
        let was : used m f k ≡ false = sym (rw p at (a.slots k l)) ∙ free in
        (
          elim (Bool-cases (ltb k a.slot)) [
            | inl q ↦ absurd (clash was (a.earlier k (ltb→lt k a.slot q)))
            | inr q ↦ ground arith
          ],
          was,
        )
  ]

  pub grow_direct-Grown :
      (f : ℕ → Option Block) (g i : ℕ) (d : DiskInode) (s : State)
      → Good s
      → ((j : ℕ) → contents s j ≡ f j)
      → Ready m f
      → HasSpare m f g
      → Grown f g i d (grow_direct bs m g i (record { node = d; dev = s }))
  unfolding grow_direct
  grow_direct-Grown f zero i d s g same r spare = record {
    slot = λ j. 0;
    direct = d.direct;
    after = s;
    runs = refl;
    good = g;
    new = λ j l u. absurd (omega arith);
    old = λ j h. refl;
    in_range = λ j l u. absurd (omega arith);
    was_free = λ j l u. absurd (omega arith);
    rising = λ j k l h u. absurd (omega arith);
    kept = λ j h. same j;
  }
  grow_direct-Grown f (suc n) i d s g same r sp =
      let a =
        alloc-Gives bs m f s (sp.spare 0) g same r (sp.in_range 0 (omega arith))
          (sp.is_free 0 (omega arith)) in
      let d' : DiskInode = record d {
        direct = update d.direct i (a.slot + m.data_segment_offset);
      } in
      let later : HasSpare m (contents a.after) n = record {
        spare = λ j. sp.spare (j + 1);
        in_range = λ j l. sp.in_range (j + 1) (omega arith);
        is_free = λ j l.
            let q : (a.slot == sp.spare (j + 1)) ≡ false =
              ground (arith, sp.rising 0 (j + 1) (omega arith) (omega arith), a.first) in
            a.slots (sp.spare (j + 1)) (sp.in_range (j + 1) (omega arith))
            ∙ rw q (sp.is_free (j + 1) (omega arith));
        rising = λ j k l u. sp.rising (j + 1) (k + 1) (omega arith) (omega arith);
      } in
      let rest =
        grow_direct-Grown (contents a.after) n (i + 1) d' a.after a.good (λ j. refl) a.ready
          later in
      let behind : (j : ℕ)
          → i + 1 ≤ j
          → j < i + 1 + n
          → (a.slot < rest.slot j) × (used m f (rest.slot j) ≡ false) =
        λ j l u.
          free_after f (sp.spare 0) s a (rest.slot j) (rest.in_range j l u) (rest.was_free j l u) in
      record {
        slot = λ j. if j == i then a.slot else rest.slot j;
        direct = rest.direct;
        after = rest.after;
        runs =
            ap
              (λ x. and_then (with_dev d x) (λ b t.
                grow_direct bs m n (i + 1)
                  (record t { node = record t.node { direct = update t.node.direct i b } })))
              a.runs
            ∙ rest.runs;
        good = rest.good;
        new = λ j l u. elim (Bool-cases (j == i)) [
          | inl p ↦ rw p (rest.old j (inl (ground arith)) ∙ update_at d.direct i j _ p)
          | inr p ↦ rw p (rest.new j (ground arith) (ground arith))
        ];
        old = λ j h. rest.old j (past i n j h) ∙ update_off d.direct i n j _ h;
        in_range = λ j l u. elim (Bool-cases (j == i)) [
          | inl p ↦ rw p (omega (arith, sp.in_range 0, a.first))
          | inr p ↦ rw p (rest.in_range j (ground arith) (ground arith))
        ];
        was_free = λ j l u. elim (Bool-cases (j == i)) [
          | inl p ↦ rw p a.was_free
          | inr p ↦ rw p (behind j (ground arith) (ground arith)).1
        ];
        rising = λ j k l h u. elim (Bool-cases (j == i)) [
          | inl p ↦
              let q : (k == i) ≡ false = ground arith in
              rw (p, q) (behind k (ground arith) (omega arith)).0
          | inr p ↦
              let q : (k == i) ≡ false = ground arith in
              rw (p, q) (rest.rising j k (ground arith) h (omega arith))
        ];
        kept = λ j h. rest.kept j h ∙ a.kept j h;
      }
